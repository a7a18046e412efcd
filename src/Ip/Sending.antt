-- ===== src/Ip/Sending.antt =====
-- src/veloxd/ip/Ip.cpp, `Ip::tx`, and ip/IpHdr.cpp, `IpIdGenerator`: what leaves for the interface.
use velox_project.Prelude.{
  ℕ, ◌+◌, ◌*◌, ◌%◌, ◌^◌, ◌≤◌, ◌<◌, ◌≡◌, ◌≢◌, refl, List, length, arith, u16,
}
use velox_project.Csum16.{checksum}
use velox_project.Csum16.Verify.{word_sum, checksum_verifies}
use velox_project.Ip.Wire.{Fits}
use velox_project.Ip.{IpHdr, next_id, ip_front, ip_back, ip_bytes, tx}

-- The fields fit their widths.
pub record IsIpHdr (h : IpHdr) : Type 0 where
  pub version_fits : h.version < 16
  pub ihl_fits : h.ihl < 16
  pub tos_fits : h.tos < 256
  pub ttl_fits : h.ttl < 256
  pub protocol_fits : h.protocol < 256

pub word_sum-ip_front : (h : IpHdr) → IsIpHdr h → word_sum (ip_front h) ≤ 5 * 65535
unfolding word_sum ip_front
word_sum-ip_front h v = omega arith

pub word_sum-ip_back : (h : IpHdr) → word_sum (ip_back h) ≤ 4 * 65535
unfolding word_sum ip_back
word_sum-ip_back h = omega arith

length-ip_front : (h : IpHdr) → length (ip_front h) % 2 ≡ 0
unfolding ip_front
length-ip_front h = refl

-- A header that comes with a zero checksum leaves `Ip::tx` as an IPv4 header of five words that
-- sums to zero at the receiver; the other fields are untouched.
pub tx_verifies :
    (last : ℕ) (h : IpHdr) (transport user_payload : List ℕ)
    → IsIpHdr h
    → h.check ≡ 0
    → let p = (tx last h transport user_payload).1 in
      (u16 (checksum (ip_bytes p.network) 0) ≡ 0)
      × (p.network
          ≡ record h { version = 4; ihl = 5; id = (next_id last).1; check = p.network.check })
unfolding tx ip_back ip_front
tx_verifies last h transport user_payload v z =
    let h' = record h { version = 4; ihl = 5; id = (next_id last).1; check = 0 } in
    let fits : IsIpHdr h' = omega arith in
    (
      rw z (
          checksum_verifies (ip_front h') (ip_back h') 0 (length-ip_front h')
            (omega (arith, word_sum-ip_front h' fits, word_sum-ip_back h'))),
      refl,
    )

-- The header that leaves fits its widths.
pub tx-Fits :
    (last : ℕ) (h : IpHdr) (transport user_payload : List ℕ)
    → h.tos < 256
    → h.tot_len < 2 ^ 16
    → h.frag_off ≡ 0
    → h.ttl < 256
    → h.protocol < 256
    → h.saddr < 2 ^ 32
    → h.daddr < 2 ^ 32
    → Fits (tx last h transport user_payload).1.network
unfolding tx next_id
tx-Fits last h transport user_payload tos len off ttl proto saddr daddr = omega arith

-- The generator never hands out 0 nor the same identifier twice in a row, and counts from 1 to 65535
-- and round again, whatever 16 bits it starts from.
pub next_id_cycle :
    (last : ℕ)
    → last < 2 ^ 16
    → ((next_id last).1 ≢ 0)
      × ((next_id (next_id last).0).1 ≢ (next_id last).1)
      × ((next_id last).0 ≡ last % 65535 + 1)
unfolding next_id
next_id_cycle last h = ground arith
