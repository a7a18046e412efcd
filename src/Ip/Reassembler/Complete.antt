-- ===== src/Ip/Reassembler/Complete.antt =====
-- src/veloxd/ip/reassembly/Reassembler.cpp, `Reassembler::defrag`, steps 4 and 5: when a group is
-- complete, and the packet that is made of it.
use velox_project.Prelude.{
  ℕ, ap₂, ◌+◌, ◌-◌, ◌*◌, ◌^◌, ◌≤◌, ◌<◌, ◌≡◌, ◌≢◌, ◌↔◌, ◌⊎◌, inl, inr, length, length-map, refl, ap,
  sym, ◌∙◌, true, false, none, some, List, [], ◌∷◌, map, arith, All, ◌==◌, if◌then◌else◌,
  Bool-cases, u16, swap16-swap16, ==_iff,
}
use velox_project.Ip.Reassembler.{
  FrameBuf, frag_offset, total_len, minus, contiguous, last_of, is_last, payload_len, adjust_first,
  adjust_subsequent, complete,
}

-- A frame's user data, and a header that the frame is long enough for.
abbrev pub data_len : FrameBuf → ℕ
data_len f = total_len f - f.hdr.ihl * 4

abbrev pub IsFrame : FrameBuf → Type 0
IsFrame f = f.hdr.ihl * 4 ≤ total_len f

abbrev pub data_sum : List FrameBuf → ℕ
data_sum [] = 0
data_sum (f ∷ rest) = data_len f + data_sum rest

-- The data of the frames stand side by side from an offset on.
abbrev pub Follows : ℕ → List FrameBuf → Type 0
Follows start [] = Unit
Follows start (f ∷ rest) = (frag_offset f * 8 ≡ start) × Follows (start + data_len f) rest

minus_le : (a b : ℕ) → b ≤ a → minus a b ≡ some (a - b)
minus_le a b h = ground arith

contiguous_cons :
    (start : ℕ) (f : FrameBuf) (rest : List FrameBuf)
    → IsFrame f
    → contiguous (some start) (f ∷ rest) ≡ (
        if frag_offset f * 8 == start
        then contiguous (some (frag_offset f * 8 + total_len f - f.hdr.ihl * 4)) rest
        else false)
unfolding contiguous
contiguous_cons start f rest h =
    ap (λ e. if frag_offset f * 8 == start then contiguous e rest else false)
      (minus_le (frag_offset f * 8 + total_len f) (f.hdr.ihl * 4) (omega arith))

contiguous_behind :
    (start : ℕ) (f : FrameBuf) (rest : List FrameBuf)
    → IsFrame f
    → frag_offset f * 8 ≡ start
    → contiguous (some start) (f ∷ rest) ≡ contiguous (some (start + data_len f)) rest
contiguous_behind start f rest h e =
    contiguous_cons start f rest h
    ∙ rw ((==_iff (frag_offset f * 8) start).1 e) (ap (λ n. contiguous (some n) rest) (omega arith))

Follows-contiguous :
    (start : ℕ) (chain : List FrameBuf)
    → All IsFrame chain
    → Follows start chain
    → contiguous (some start) chain ≡ true
unfolding contiguous
Follows-contiguous start [] h w = refl
Follows-contiguous start (f ∷ rest) h w =
    contiguous_behind start f rest h.0 w.0 ∙ Follows-contiguous (start + data_len f) rest h.1 w.1

contiguous-Follows :
    (start : ℕ) (chain : List FrameBuf)
    → All IsFrame chain
    → contiguous (some start) chain ≡ true
    → Follows start chain
contiguous-Follows start [] h e = tt
contiguous-Follows start (f ∷ rest) h e = elim (Bool-cases (frag_offset f * 8 == start)) [
  | inl t ↦
      (let at_start = (==_iff (frag_offset f * 8) start).0 t in
        (
          at_start,
          contiguous-Follows (start + data_len f) rest h.1
              (sym (contiguous_behind start f rest h.0 at_start) ∙ e),
        ))
  | inr n ↦ cc (rw n at (sym (contiguous_cons start f rest h.0) ∙ e))
]

-- `payloadlen` of the last frame is where the data ends.
last_data :
    (start : ℕ) (f : FrameBuf) (rest : List FrameBuf)
    → All IsFrame (f ∷ rest)
    → Follows start (f ∷ rest)
    → start + data_sum (f ∷ rest) < 2 ^ 16
    → payload_len (last_of f rest) ≡ start + data_sum (f ∷ rest)
unfolding last_of payload_len
last_data start f [] h w small = grind arith
last_data start f (g ∷ rest) h w small =
    last_data (start + data_len f) g rest h.1 w.1 (omega arith) ∙ omega arith

complete_of :
    (f : FrameBuf) (rest : List FrameBuf)
    → All IsFrame (f ∷ rest)
    → Follows 0 (f ∷ rest)
    → is_last (last_of f rest) ≡ true
    → complete (f ∷ rest)
      ≡ some (adjust_first (payload_len (last_of f rest)) f ∷ map adjust_subsequent rest)
unfolding complete
complete_of f rest h w l = rw (Follows-contiguous 0 (f ∷ rest) h w, l) refl

-- A group is complete exactly when its frames stand side by side from offset 0 on and the last of
-- them has the MF bit clear, if no frame is shorter than its header.
pub complete-some_iff :
    (f : FrameBuf) (rest : List FrameBuf)
    → All IsFrame (f ∷ rest)
    → (complete (f ∷ rest) ≢ none) ↔ (Follows 0 (f ∷ rest) × (is_last (last_of f rest) ≡ true))
unfolding complete
complete-some_iff f rest h = (
  (λ ne.
      both (Bool-cases (contiguous (some 0) (f ∷ rest))) (Bool-cases (is_last (last_of f rest)))
        ne),
  (λ w. λ e. cc (rw (complete_of f rest h w.0 w.1) at e)),
)
  where
    both :
        (contiguous (some 0) (f ∷ rest) ≡ true) ⊎ (contiguous (some 0) (f ∷ rest) ≡ false)
        → (is_last (last_of f rest) ≡ true) ⊎ (is_last (last_of f rest) ≡ false)
        → complete (f ∷ rest) ≢ none
        → Follows 0 (f ∷ rest) × (is_last (last_of f rest) ≡ true)
    both (inl c) (inl l) ne = (contiguous-Follows 0 (f ∷ rest) h c, l)
    both (inl c) (inr n) ne = absurd (ne (rw (c, n) refl))
    both (inr n) l ne = absurd (ne (rw n refl))

pub complete-none :
    (f : FrameBuf) (rest : List FrameBuf)
    → is_last (last_of f rest) ≡ false
    → complete (f ∷ rest) ≡ none
unfolding complete
complete-none f rest l =
    rw l
      (elim (Bool-cases (contiguous (some 0) (f ∷ rest))) [ inl t ↦ rw t refl | inr n ↦ rw n refl ])

-- The packet of these fragments: a frame for each, all with their bytes. The first keeps its payload, and the length in its
-- header is the length of that header and the data of all; the others have lost their headers, and their payload
-- begins as many bytes in as the header has words, so that the rest of the header is in front of the data.
pub record IsPacketOf (f : FrameBuf) (fs : List FrameBuf) (head : FrameBuf) (tail : List FrameBuf)
    : Type 0 where
  pub frames : length tail ≡ length fs
  pub whole : total_len head ≡ data_sum (f ∷ fs) + f.hdr.ihl * 4
  pub first_bytes : head.raw_bytes ≡ f.raw_bytes
  pub first_payload :
      (head.user_payload_begin ≡ f.user_payload_begin)
      × (head.user_payload_end ≡ f.user_payload_end)
  pub bytes : map (λ (x : FrameBuf). x.raw_bytes) tail ≡ map (λ (x : FrameBuf). x.raw_bytes) fs
  pub headers : All (λ (x : FrameBuf). x.has_network_hdr ≡ false) tail
  pub begins :
      map (λ (x : FrameBuf). x.user_payload_begin) tail ≡ map (λ (x : FrameBuf). x.hdr.ihl) fs
  pub ends :
      map (λ (x : FrameBuf). x.user_payload_end) tail
      ≡ map (λ (x : FrameBuf). x.user_payload_end) fs

map_subsequent :
    {A : Type 0} (g h : FrameBuf → A) (fs : List FrameBuf)
    → ((x : FrameBuf) → g (adjust_subsequent x) ≡ h x)
    → map g (map adjust_subsequent fs) ≡ map h fs
map_subsequent g h [] e = refl
map_subsequent g h (f ∷ fs) e = ap₂ (λ a b. a ∷ b) (e f) (map_subsequent g h fs e)

no_headers : (fs : List FrameBuf) → All (λ x. x.has_network_hdr ≡ false) (map adjust_subsequent fs)
unfolding adjust_subsequent
no_headers [] = tt
no_headers (f ∷ fs) = (refl, no_headers fs)

-- What is made of a complete group whose length 16 bits hold.
pub complete-IsPacketOf :
    (f : FrameBuf) (rest : List FrameBuf)
    → All IsFrame (f ∷ rest)
    → Follows 0 (f ∷ rest)
    → is_last (last_of f rest) ≡ true
    → data_sum (f ∷ rest) + f.hdr.ihl * 4 < 2 ^ 16
    → (head : FrameBuf) × (tail : List FrameBuf) × (complete (f ∷ rest) ≡ some (head ∷ tail))
      × IsPacketOf f rest head tail
unfolding adjust_first adjust_subsequent
complete-IsPacketOf f rest h w l small = (
  adjust_first (payload_len (last_of f rest)) f,
  map adjust_subsequent rest,
  complete_of f rest h w l,
  record {
    frames = length-map adjust_subsequent rest;
    whole = swap16-swap16 _ (omega arith) ∙ sizes (last_data 0 f rest h w (omega arith));
    first_bytes = refl;
    first_payload = (refl, refl);
    bytes = map_subsequent _ _ rest (λ x. refl);
    headers = no_headers rest;
    begins = map_subsequent _ _ rest (λ x. refl);
    ends = map_subsequent _ _ rest (λ x. refl);
  },
)
  where
    sizes :
        payload_len (last_of f rest) ≡ 0 + data_sum (f ∷ rest)
        → u16 (payload_len (last_of f rest) + f.hdr.ihl * 4) ≡ data_sum (f ∷ rest) + f.hdr.ihl * 4
    sizes e = omega arith
