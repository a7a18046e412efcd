-- ===== src/Logging/Padding.antt =====
-- src/veloxd/Logging.cpp, `file_lineno_with_padding`: what it makes, and when it stays in its buffer.
use velox_project.Prelude.{
  ℕ, suc, ◌+◌, ◌-◌, ◌≤◌, ◌<◌, ◌≡◌, ◌↔◌, inl, inr, refl, sym, ap, ◌∙◌, true, false, none, some,
  Option, List, [], ◌∷◌, ◌++◌, length, if◌then◌else◌, take, drop, set, replicate, min, max, arith,
  ltb, Bool-cases, length-append, take-length, take_all,
}
use velox_project.Logging.Digits.{decimal-le_iff, lt-decimal}
use velox_project.Logging.Buffers.{
  drop-append, take-append, set-append, drop-replicate, take-replicate, length-take, take-min,
}
use mathlib.Core.List.{append-nil, append_assoc}
use velox_project.Logging.{decimal, memcpy, snprintf, space, file_lineno_with_padding}

-- The spaces behind the text, in a buffer whose text ends at its length `s`, below 17.
tail_of_spaces :
    (s u : ℕ) (rest : List ℕ)
    → s < 17
    → rest ≡ replicate (22 - s) space ++ (u ∷ [])
    → take (17 - s) (space ∷ rest) ≡ replicate (17 - s) space
tail_of_spaces s u rest h e =
    (let next : 17 - s ≡ suc (16 - s) = omega arith in
      rw (next, e)
        (ap (λ l. space ∷ l) (take-replicate (16 - s) (22 - s) space (u ∷ []) (omega arith))))

-- What is left of the blanks behind a name and a line.
remaining : (n m : ℕ) {s : ℕ} → n + m ≡ s → (23 - n) - (m + 1) ≡ 22 - s
remaining n m e = omega arith

-- A text with what the buffer holds behind it, cut at its length or at 17.
cut :
    (u : ℕ) (text rest : List ℕ)
    → (length text < 17 → rest ≡ replicate (22 - length text) space ++ (u ∷ []))
    → take (max (length text) 17) (text ++ (space ∷ rest))
      ≡ text ++ replicate (17 - length text) space
cut u text rest h = elim (Bool-cases (ltb (length text) 17)) [
  | inl t ↦
      (let short : length text < 17 = ground arith in
        let all : max (length text) 17 ≡ length text + (17 - length text) = omega arith in
        rw all (
          take-append text (space ∷ rest) (17 - length text)
          ∙ ap (λ l. text ++ l) (tail_of_spaces (length text) u rest short (h short))))
  | inr f ↦
      (let long : 17 ≤ length text = ground arith in
        let all : max (length text) 17 ≡ length text = omega arith in
        let no_more : 17 - length text ≡ 0 = omega arith in
        rw (all, no_more) (take-length text (space ∷ rest) ∙ sym (append-nil text)))
]

-- The buffer behind the name, the number and the space.
written :
    (u : ℕ) (name line : List ℕ)
    → length name ≤ 18
    → length line ≤ 5
    → (rest : List ℕ) × (set
          (snprintf (memcpy (replicate 23 space ++ (u ∷ [])) name) (length name) line)
          (length name + length line)
          space
        ≡ (name ++ line) ++ (space ∷ rest))
      × (length (name ++ line) < 17
          → rest ≡ replicate (22 - length (name ++ line)) space ++ (u ∷ []))
unfolding snprintf memcpy
written u name line h k =
    let blank = replicate 23 space ++ (u ∷ []) in
    let behind_name = drop (length name) blank in
    let rest = drop (length line + 1) behind_name in
    let whole : take 5 line ≡ line = take_all 5 line k in
    let together : length name + length line ≡ length (name ++ line) =
      omega (arith, length-append {0} name line) in
    (
      rest,
      rw
          (
            whole,
            take-length name behind_name,
            drop-append name behind_name (length line + 1),
            together,
          )
          (ap (λ l. set l (length (name ++ line)) space) (sym (append_assoc name line (0 ∷ rest)))
            ∙ set-append (name ++ line) 0 space rest),
      λ short.
          ap (drop (length line + 1)) (drop-replicate (length name) 23 space (u ∷ []) (omega arith))
          ∙ drop-replicate (length line + 1) (23 - length name) space (u ∷ []) (omega arith)
          ∙ ap (λ c. replicate c space ++ (u ∷ []))
              (remaining (length name) (length line) together),
    )

-- The function behind its copy of the name, whose length it has taken.
padded_with : ℕ → List ℕ → List ℕ → ℕ → Option (List ℕ)
padded_with u name line n =
    if ltb (n + length line) 24
    then some (
        take (max (n + length line) 17) (
          set (snprintf (memcpy (replicate 23 space ++ (u ∷ [])) name) n line) (n + length line)
            space))
    else none

padded_with-length :
    (u : ℕ) (name line : List ℕ)
    → length name ≤ 18
    → length line ≤ 5
    → padded_with u name line (length name)
      ≡ some ((name ++ line) ++ replicate (17 - length (name ++ line)) space)
unfolding padded_with
padded_with-length u name line h k =
    let fits : ltb (length name + length line) 24 ≡ true = ground arith in
    let (rest, e, blank) = written u name line h k in
    let together : length name + length line ≡ length (name ++ line) =
      omega (arith, length-append {0} name line) in
    rw (fits, e)
      (ap some (
        ap (λ i. take (max i 17) ((name ++ line) ++ (space ∷ rest))) together
        ∙ cut u (name ++ line) rest blank))

-- With a line number of at most four digits the result is the first 18 bytes of the name, a colon and the number, and
-- spaces up to 17 bytes.
pub file_lineno_with_padding_lem :
    (unset : ℕ) (filename : List ℕ) (lineno : ℕ)
    → lineno < 10000
    → let text = take 18 filename ++ (b':' ∷ decimal lineno) in
      file_lineno_with_padding unset filename lineno
      ≡ some (text ++ replicate (17 - length text) space)
unfolding file_lineno_with_padding padded_with
file_lineno_with_padding_lem unset filename lineno h =
    let n = min (length filename) 18 in
    let line = b':' ∷ decimal lineno in
    let short = (decimal-le_iff lineno).1 h in
    let taken : n ≡ length (take n filename) = omega (arith, length-take n filename) in
    ap (padded_with unset (take n filename) line) taken
    ∙ padded_with-length unset (take n filename) line (omega arith) (omega arith)
    ∙ ap (λ f. some ((f ++ line) ++ replicate (17 - length (f ++ line)) space))
        (take-min 18 filename)

-- A name of 18 bytes or more leaves room for four digits: the write behind the number is outside the buffer exactly from
-- 10000 on.
pub file_lineno_with_padding-none_iff :
    (unset : ℕ) (filename : List ℕ) (lineno : ℕ)
    → 18 ≤ length filename
    → (file_lineno_with_padding unset filename lineno ≡ none) ↔ (10000 ≤ lineno)
unfolding file_lineno_with_padding
file_lineno_with_padding-none_iff unset filename lineno long = (
  (λ e. elim (Bool-cases (ltb lineno 10000)) [
    | inl t ↦
        (let small : lineno < 10000 = ground arith in
          let made = file_lineno_with_padding_lem unset filename lineno small in absurd cc)
    | inr f ↦ ground arith
  ]),
  (λ large.
      let full : min (length filename) 18 ≡ 18 = omega arith in
      let wide = lt-decimal lineno large in
      let over : ltb (18 + length (b':' ∷ decimal lineno)) 24 ≡ false = ground arith in
      rw (full, over) refl),
)
