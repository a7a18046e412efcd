-- ===== src/Examples/Network.antt =====
-- Concrete packets and fragments, for csum/Csum16.cpp, ip/Ip.cpp and ip/reassembly/Reassembler.cpp of
-- src/veloxd.
use velox_project.Prelude.{
  ℕ, ◌+◌, ◌/◌, ◌%◌, ◌^◌, ◌≡◌, ◌≢◌, ◌↔◌, ◌≤◌, refl, true, none, some, List, [], ◌∷◌, ◌++◌, arith,
  le16, u16, swap16,
}
use mathlib.Core.List.{Perm}
use velox_project.Csum16.{checksum, fold, fold_fuel}
use velox_project.Csum16.Fold.{fold_terminates}
use velox_project.Csum16.Verify.{word_sum, checksum_verifies}
use velox_project.Ip.{IpHdr, next_id, ip_bytes, tx}
use velox_project.Ip.Sending.{IsIpHdr, tx_verifies, next_id_cycle}
use velox_project.Ip.Reassembler.{
  FrameBuf, frag_offset, ours_off, new_group, insert_frag, insert_behind, contiguous, payload_len,
  last_of, is_last, complete, adjust_first, adjust_subsequent,
}
use velox_project.Ip.Reassembler.Insert.{insert_frag-none_iff, insert_frag-perm}
use velox_project.Ip.Reassembler.Complete.{
  Follows, complete-some_iff, IsPacketOf, complete-IsPacketOf,
}
use velox_project.Ip.Reassembler.Whole.{defrag_all-total_len}
use velox_project.Ip.Reassembler.Ordered.{InOrder, OursBehind}
use velox_project.Ip.Reassembler.Arrival.{groups_with, InPlace, defrag_all, defrag_all-InPlace}

abbrev front : List ℕ
front = 69 ∷ 0 ∷ []

abbrev back : List ℕ
back = 1 ∷ 2 ∷ 3 ∷ []

checksum_verifies_example :
    u16 (checksum (front ++ (le16 (u16 (checksum (front ++ (le16 0 ++ back)) 0)) ++ back)) 0) ≡ 0
unfolding word_sum
checksum_verifies_example = checksum_verifies front back 0 refl (omega arith)

-- A header for a datagram of 1400 bytes.
abbrev pub datagram_hdr : IpHdr
datagram_hdr = record {
  version = 0;
  ihl = 0;
  tos = 0;
  tot_len = swap16 1428;
  id = 0;
  frag_off = 0;
  ttl = 64;
  protocol = 17;
  check = 0;
  saddr = 16777226;
  daddr = 33554442;
}

datagram_hdr-IsIpHdr : IsIpHdr datagram_hdr
datagram_hdr-IsIpHdr = record {
  version_fits = omega arith;
  ihl_fits = omega arith;
  tos_fits = omega arith;
  ttl_fits = omega arith;
  protocol_fits = omega arith;
}

tx_verifies_example :
    let p = (tx 65535 datagram_hdr front back).1 in
    (u16 (checksum (ip_bytes p.network) 0) ≡ 0)
    × (p.network ≡ record datagram_hdr {
      version = 4;
      ihl = 5;
      id = (next_id 65535).1;
      check = p.network.check;
    })
tx_verifies_example = tx_verifies 65535 datagram_hdr front back datagram_hdr-IsIpHdr refl

ids_in_turn :
    ((next_id 65535).1 ≢ 0)
    × ((next_id (next_id 65535).0).1 ≢ (next_id 65535).1)
    × ((next_id 65535).0 ≡ 65535 % 65535 + 1)
ids_in_turn = next_id_cycle 65535 (omega arith)

-- A fragment of a packet: its offset in units of eight bytes and the MF bit, as the field in host order, and its length.
abbrev pub fragment : ℕ → ℕ → FrameBuf
fragment field len = record {
  hdr = record datagram_hdr { version = 4; ihl = 5; frag_off = swap16 field; tot_len = swap16 len };
  has_network_hdr = true;
  raw_bytes = [];
  user_payload_begin = 28;
  user_payload_end = 28 + len;
}

-- 1496 bytes, then 1480, with 20 bytes of header each.
abbrev pub first_fragment : FrameBuf
first_fragment = fragment 8192 1516

abbrev pub last_fragment : FrameBuf
last_fragment = fragment 187 1500

-- Between offsets 187 and 372 of a larger packet.
abbrev inner_fragment : FrameBuf
inner_fragment = fragment (8192 + 187) 1500

-- The two readings of an offset disagree: 187 comes out as 47872 modulo 8192.
offsets_differ : ours_off last_fragment ≡ 6912
unfolding ours_off
offsets_differ = refl

fragment_faults : (insert_frag (fragment 32 100) (fragment 1 100 ∷ []) ≡ none) ↔ (
    (f : FrameBuf) × (rest : List FrameBuf) × ((fragment 1 100 ∷ []) ≡ f ∷ rest)
    × (frag_offset f ≤ frag_offset (fragment 32 100))
    × (ours_off (fragment 32 100) ≤ frag_offset f))
fragment_faults = insert_frag-none_iff (fragment 32 100) (fragment 1 100 ∷ [])

-- Offset 32 is read as 8192 modulo 8192 behind the change of byte order: the daemon faults.
insert_faults : insert_frag (fragment 32 100) (fragment 1 100 ∷ []) ≡ none
unfolding insert_frag frag_offset ours_off
insert_faults = refl

inserted :
    insert_frag last_fragment (first_fragment ∷ []) ≡ some (first_fragment ∷ last_fragment ∷ [])
unfolding insert_frag insert_behind frag_offset ours_off
inserted = refl

none_lost_on_insert :
    Perm (first_fragment ∷ last_fragment ∷ []) (last_fragment ∷ first_fragment ∷ [])
none_lost_on_insert =
    insert_frag-perm last_fragment (first_fragment ∷ []) (first_fragment ∷ last_fragment ∷ [])
      inserted

-- The two fragments stand side by side.
pub fragments-Follows : Follows 0 (first_fragment ∷ last_fragment ∷ [])
unfolding frag_offset
fragments-Follows = (refl, (refl, tt))

pub fragments-is_last : is_last (last_of first_fragment (last_fragment ∷ [])) ≡ true
unfolding is_last last_of
fragments-is_last = refl

complete-some_iff_example : (complete (first_fragment ∷ last_fragment ∷ []) ≢ none) ↔ (
    Follows 0 (first_fragment ∷ last_fragment ∷ [])
    × (is_last (last_of first_fragment (last_fragment ∷ [])) ≡ true))
complete-some_iff_example =
    complete-some_iff first_fragment (last_fragment ∷ []) (omega arith, (omega arith, tt))

group-IsPacketOf :
    (head : FrameBuf) × (tail : List FrameBuf) × (complete (first_fragment ∷ last_fragment ∷ [])
      ≡ some (head ∷ tail))
    × IsPacketOf first_fragment (last_fragment ∷ []) head tail
group-IsPacketOf =
    complete-IsPacketOf first_fragment (last_fragment ∷ []) (omega arith, (omega arith, tt))
      fragments-Follows fragments-is_last (omega arith)

abbrev packet : List FrameBuf
packet = adjust_first 2976 first_fragment ∷ adjust_subsequent last_fragment ∷ []

fragments-complete : complete (first_fragment ∷ last_fragment ∷ []) ≡ some packet
unfolding complete contiguous last_of is_last payload_len frag_offset
fragments-complete = refl

-- In order, the two fragments of a packet give the packet, on an empty list of groups.
fragments-InPlace : InPlace (new_group first_fragment) [] (first_fragment ∷ last_fragment ∷ [])
unfolding frag_offset ours_off is_last new_group
fragments-InPlace = (refl, tt, refl, (refl, ((omega arith, omega arith), tt)))

pub fragments-InOrder : InOrder (new_group first_fragment) [] (first_fragment ∷ last_fragment ∷ [])
unfolding frag_offset is_last new_group
fragments-InOrder = (refl, tt, refl, (refl, (omega arith, tt)))

pub fragments-OursBehind : OursBehind [] (first_fragment ∷ last_fragment ∷ [])
unfolding frag_offset ours_off
fragments-OursBehind = (tt, ((omega arith, tt), tt))

fragments_defragged :
    defrag_all (groups_with [] (new_group first_fragment) []) (first_fragment ∷ last_fragment ∷ [])
    ≡ some ([], packet ∷ [])
fragments_defragged =
    defrag_all-InPlace (new_group first_fragment) [] [] first_fragment (last_fragment ∷ []) packet
      (tt, (tt, tt)) fragments-InPlace fragments-complete

defrag_all-total_len_example :
    (head : FrameBuf) × (tail : List FrameBuf) × (defrag_all
        (groups_with [] (new_group first_fragment) [])
        (first_fragment ∷ last_fragment ∷ [])
      ≡ some ([], (head ∷ tail) ∷ []))
    × IsPacketOf first_fragment (last_fragment ∷ []) head tail
defrag_all-total_len_example =
    defrag_all-total_len [] first_fragment (last_fragment ∷ []) (tt, (tt, tt)) fragments-InOrder
      fragments-OursBehind (omega arith, (omega arith, tt)) fragments-Follows fragments-is_last
      (omega arith)

fold_terminates_example :
    (fold fold_fuel 0xfffeffff / 2 ^ 16 ≡ 0) × (fold 9 0xfffeffff ≡ fold fold_fuel 0xfffeffff)
fold_terminates_example = fold_terminates 6 0xfffeffff (omega arith)
