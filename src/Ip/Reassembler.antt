-- ===== src/Ip/Reassembler.antt =====
-- src/veloxd/ip/reassembly/FragGroup.h and ip/reassembly/Reassembler.cpp. A chain of FrameBufs through
-- `next` is a list, the null pointer the empty one; a pointer into the list of groups is the list
-- split at it. Offsets into a frame's `rawBytes` stand for its pointers.
pub mod Insert
pub mod Complete
pub mod Arrival
pub mod Ordered
pub mod Whole
pub mod Groups
pub mod Sound
use velox_project.Prelude.{
  ℕ, zero, suc, ◌+◌, ◌-◌, ◌*◌, ◌^◌, Bool, true, false, ◌&&◌, Option, none, some, List, [], ◌∷◌,
  ◌++◌, map, bit_and, ltb, ◌==◌, if◌then◌else◌, u16, swap16,
}
use velox_project.Ip.{IpHdr, ip_off_mask, ip_mf_mask}

-- FrameBuf.h: the IP header in front of `rawBytes`, whether `network_hdr` still points to it, the
-- bytes, and where the user payload begins and ends in them.
pub record FrameBuf : Type 0 where
  pub hdr : IpHdr
  pub has_network_hdr : Bool
  pub raw_bytes : List ℕ
  pub user_payload_begin : ℕ
  pub user_payload_end : ℕ

-- Which packet a group is for, and its fragments. The timer is left out: no event loop runs it.
pub record FragGroup : Type 0 where
  pub ip_id : ℕ
  pub ip_protocol : ℕ
  pub ip_saddr : ℕ
  pub ip_daddr : ℕ
  pub first : List FrameBuf

-- A fragment's offset, in units of eight bytes.
unfoldable pub frag_offset : FrameBuf → ℕ
frag_offset f = bit_and (swap16 f.hdr.frag_off) ip_off_mask

-- `ours_off`: masked without the change of byte order.
unfoldable pub ours_off : FrameBuf → ℕ
ours_off f = bit_and f.hdr.frag_off ip_off_mask

-- 1. The test of the search.
pub is_for : FrameBuf → FragGroup → Bool
is_for skbuf c =
    c.ip_id == skbuf.hdr.id
    && (c.ip_protocol == skbuf.hdr.protocol
        && (c.ip_saddr == skbuf.hdr.saddr && c.ip_daddr == skbuf.hdr.daddr))

-- 2. A new group.
unfoldable pub new_group : FrameBuf → FragGroup
new_group skbuf = record {
  ip_id = skbuf.hdr.id;
  ip_protocol = skbuf.hdr.protocol;
  ip_saddr = skbuf.hdr.saddr;
  ip_daddr = skbuf.hdr.daddr;
  first = [];
}

-- `ctx`: the groups before it, itself, those behind it.
pub record Place : Type 0 where
  pub before : List FragGroup
  pub ctx : FragGroup
  pub behind : List FragGroup

pub find_group : FrameBuf → List FragGroup → Place
unfolding is_for new_group
find_group skbuf [] = record { before = []; ctx = new_group skbuf; behind = [] }
find_group skbuf (c ∷ cs) =
    let p = find_group skbuf cs in
    if is_for skbuf c
    then record { before = []; ctx = c; behind = cs }
    else record p { before = c ∷ p.before }

-- 3. The loop of the insertion, once `prev` is a frame.
unfoldable pub insert_behind : ℕ → FrameBuf → List FrameBuf → List FrameBuf
insert_behind ours skbuf [] = skbuf ∷ []
insert_behind ours skbuf (curr ∷ rest) =
    if ltb (frag_offset curr) ours
    then curr ∷ insert_behind ours skbuf rest
    else skbuf ∷ curr ∷ rest

-- `none` is a write through the null pointer `prev`.
unfoldable pub insert_frag : FrameBuf → List FrameBuf → Option (List FrameBuf)
unfolding frag_offset ours_off insert_behind
insert_frag skbuf [] = some (skbuf ∷ [])
insert_frag skbuf (f ∷ rest) =
    if ltb (frag_offset skbuf) (frag_offset f)
    then some (skbuf ∷ f ∷ rest)
    else if ltb (frag_offset f) (ours_off skbuf)
    then some (f ∷ insert_behind (ours_off skbuf) skbuf rest)
    else none

-- `int` subtraction; `none` is a negative result.
abbrev pub minus : ℕ → ℕ → Option ℕ
minus a b = if ltb a b then none else some (a - b)

abbrev pub total_len : FrameBuf → ℕ
total_len f = swap16 f.hdr.tot_len

-- 4. The fragments follow each other without gaps from the expected offset on.
unfoldable pub contiguous : Option ℕ → List FrameBuf → Bool
contiguous expected [] = true
contiguous none (curr ∷ rest) = false
contiguous (some expected) (curr ∷ rest) =
    let curr_off = frag_offset curr * 8 in
    let follows = contiguous (minus (curr_off + total_len curr) (curr.hdr.ihl * 4)) rest in
    if curr_off == expected then follows else false

unfoldable pub last_of : FrameBuf → List FrameBuf → FrameBuf
last_of f [] = f
last_of f (g ∷ rest) = last_of g rest

-- The MF bit of a frame is clear.
unfoldable pub is_last : FrameBuf → Bool
is_last f = bit_and (swap16 f.hdr.frag_off) ip_mf_mask == 0

-- `payloadlen`, 16 bits.
unfoldable pub payload_len : FrameBuf → ℕ
payload_len f = u16 (frag_offset f * 8 + total_len f + 2 ^ 16 - f.hdr.ihl * 4)

-- 5. The first frame takes the length of the whole; the others lose their headers.
unfoldable pub adjust_first : ℕ → FrameBuf → FrameBuf
adjust_first payloadlen f =
    let h = f.hdr in record f { hdr = record h { tot_len = swap16 (u16 (payloadlen + h.ihl * 4)) } }

unfoldable pub adjust_subsequent : FrameBuf → FrameBuf
adjust_subsequent f = record f { has_network_hdr = false; user_payload_begin = f.hdr.ihl }

-- The packet, if the group is complete.
unfoldable pub complete : List FrameBuf → Option (List FrameBuf)
unfolding contiguous last_of is_last payload_len adjust_first adjust_subsequent frag_offset
complete [] = none
complete (f ∷ rest) =
    let last = last_of f rest in
    if contiguous (some 0) (f ∷ rest) && is_last last
    then some (adjust_first (payload_len last) f ∷ map adjust_subsequent rest)
    else none

pub record Defragged : Type 0 where
  pub groups : List FragGroup
  pub packet : Option (List FrameBuf)

-- What becomes of the list: a complete group is removed from it.
pub conclude : Place → List FrameBuf → Defragged
unfolding complete
conclude p chain = elim (complete chain) [
  | none ↦
      (let ctx = p.ctx in
        record { groups = p.before ++ (record ctx { first = chain } ∷ p.behind); packet = none })
  | some packet ↦ record { groups = p.before ++ p.behind; packet = some packet }
]

-- `Reassembler::defrag`; `none` is the fault of the insertion.
pub defrag : List FragGroup → FrameBuf → Option Defragged
unfolding find_group insert_frag conclude
defrag groups skbuf =
    let p = find_group skbuf groups in
    elim (insert_frag skbuf p.ctx.first) [ none ↦ none | some chain ↦ some (conclude p chain) ]
