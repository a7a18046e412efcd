-- ===== src/Ip.antt =====
-- src/veloxd/ip/IpHdr.h, ip/IpHdr.cpp and the sending half of ip/Ip.cpp. A header is `struct iphdr`
-- with its `__be16` and `__be32` fields as the host reads them; PseudoHdr.h lays `len`, `zeros2` and
-- `protocol_len` over `tot_len`, `id` with `frag_off`, and `check`.
pub mod Reassembler
pub mod Sending
pub mod Wire
pub mod Receiving
use velox_project.Prelude.{
  ℕ, ◌+◌, ◌*◌, ◌/◌, ◌%◌, ◌^◌, Bool, not, ◌&&◌, Option, none, some, List, [], ◌∷◌, ◌++◌, bit_and,
  ltb, ◌==◌, ◌!=◌, if◌then◌else◌, u16, swap16, le16, le32,
}
use velox_project.Csum16.{checksum}

pub record IpHdr : Type 0 where
  pub version : ℕ
  pub ihl : ℕ
  pub tos : ℕ
  pub tot_len : ℕ
  pub id : ℕ
  pub frag_off : ℕ
  pub ttl : ℕ
  pub protocol : ℕ
  pub check : ℕ
  pub saddr : ℕ
  pub daddr : ℕ

abbrev pub ip_off_mask : ℕ
ip_off_mask = 0x1fff

abbrev pub ip_mf_mask : ℕ
ip_mf_mask = 0x2000

-- `IpHdrs::hlen`, in words of four bytes.
pub hlen : IpHdr → ℕ
hlen h = h.ihl

unfoldable pub is_frag : IpHdr → Bool
is_frag h =
    let off = swap16 h.frag_off in not (bit_and off ip_off_mask == 0 && bit_and off ip_mf_mask == 0)

unfoldable pub more_frag : IpHdr → Bool
more_frag h = bit_and (swap16 h.frag_off) ip_mf_mask != 0

pub data ProtocolX : Type 0 where
  ip icmp igmp udp tcp : ProtocolX

-- The table has 255 entries, zeros but for four; `none` is a read behind its end.
unfoldable pub protocol : IpHdr → Option ProtocolX
protocol h =
    if ltb h.protocol 255
    then some (
        if h.protocol == 1
        then icmp
        else if h.protocol == 2
        then igmp
        else if h.protocol == 6
        then tcp
        else if h.protocol == 17
        then udp
        else ip)
    else none

-- `IpIdGenerator::next`: the new `last`, and the identifier in network order.
unfoldable pub next_id : ℕ → ℕ × ℕ
next_id last = let id = (if last == 65535 then 0 else last) + 1 in (u16 id, swap16 (u16 id))

-- The 20 bytes of a header without options, before and behind its checksum.
unfoldable pub ip_front : IpHdr → List ℕ
ip_front h =
    ((h.version * 16 + h.ihl) ∷ h.tos ∷ [])
    ++ (le16 h.tot_len ++ (le16 h.id ++ (le16 h.frag_off ++ (h.ttl ∷ h.protocol ∷ []))))

unfoldable pub ip_back : IpHdr → List ℕ
ip_back h = le32 h.saddr ++ le32 h.daddr

abbrev pub ip_bytes : IpHdr → List ℕ
ip_bytes h = ip_front h ++ (le16 h.check ++ ip_back h)

-- What the interface writes: the two headers, then the payload.
pub record Packet : Type 0 where
  pub network : IpHdr
  pub transport : List ℕ
  pub user_payload : List ℕ

-- `Ip::tx`: the packet, and the generator's new state. The header's length is 20 bytes.
unfoldable pub tx : ℕ → IpHdr → List ℕ → List ℕ → ℕ × Packet
unfolding next_id
tx last h transport user_payload =
    let (last', id) = next_id last in
    let h' = record h { version = 4; ihl = 5; id = id } in
    (
      last',
      record {
        network = record h' { check = u16 (checksum (ip_bytes h') 0) };
        transport = transport;
        user_payload = user_payload;
      },
    )
