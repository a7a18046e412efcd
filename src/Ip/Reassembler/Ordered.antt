-- ===== src/Ip/Reassembler/Ordered.antt =====
-- src/veloxd/ip/reassembly/Reassembler.cpp: fragments of one packet that arrive in order.
use velox_project.Prelude.{◌≤◌, ◌<◌, ◌≡◌, false, List, [], ◌∷◌, ◌++◌, All}
use velox_project.Ip.Reassembler.{FrameBuf, FragGroup, new_group, is_last, frag_offset, ours_off}
use velox_project.Ip.Reassembler.Insert.{IsBehind}
use velox_project.Ip.Reassembler.Arrival.{InPlace}

-- A run of fragments of one packet, behind those that have arrived: no offset is before one that has arrived, and the
-- MF bit is clear in the last alone.
abbrev pub InOrder : FragGroup → List FrameBuf → List FrameBuf → Type 0
InOrder g chain [] = Unit
InOrder g chain (f ∷ []) = (new_group f ≡ g) × All (λ f'. frag_offset f' ≤ frag_offset f) chain
InOrder g chain (f ∷ f' ∷ rest) =
    (new_group f ≡ g)
    × All (λ f'. frag_offset f' ≤ frag_offset f) chain
    × (is_last f ≡ false)
    × InOrder g (chain ++ (f ∷ [])) (f' ∷ rest)

-- The offset of each, as step 3 reads it, without the change of byte order, is behind the offsets of all before it.
abbrev pub OursBehind : List FrameBuf → List FrameBuf → Type 0
OursBehind chain [] = Unit
OursBehind chain (f ∷ rest) =
    All (λ f'. frag_offset f' < ours_off f) chain × OursBehind (chain ++ (f ∷ [])) rest

both-IsBehind :
    (f : FrameBuf) (chain : List FrameBuf)
    → All (λ f'. frag_offset f' ≤ frag_offset f) chain
    → All (λ f'. frag_offset f' < ours_off f) chain
    → IsBehind f chain
both-IsBehind f [] h k = tt
both-IsBehind f (c ∷ chain) h k = ((h.0, k.0), both-IsBehind f chain h.1 k.1)

-- Such fragments go to their places.
pub InOrder-InPlace :
    (g : FragGroup) (chain fs : List FrameBuf)
    → InOrder g chain fs
    → OursBehind chain fs
    → InPlace g chain fs
InOrder-InPlace g chain [] o b = tt
InOrder-InPlace g chain (f ∷ []) o b = (o.0, both-IsBehind f chain o.1 b.0)
InOrder-InPlace g chain (f ∷ f' ∷ rest) o b = (
  o.0,
  both-IsBehind f chain o.1 b.0,
  o.2,
  InOrder-InPlace g (chain ++ (f ∷ [])) (f' ∷ rest) o.3 b.1,
)
