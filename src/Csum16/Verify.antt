-- ===== src/Csum16/Verify.antt =====
-- src/veloxd/base/Csum16.cpp: what the checksum is for. A receiver that sums the same bytes, the
-- stored checksum among them, gets zero.
use velox_project.Prelude.{
  ℕ, ◌+◌, ◌-◌, ◌*◌, ◌%◌, ◌^◌, ◌≤◌, ◌<◌, ◌≡◌, refl, List, [], ◌∷◌, ◌++◌, arith, All, length, u16,
  u32, le16, IsByte, ap, ◌∙◌,
}
use velox_project.Csum16.{add_words, fold, fold_fuel, checksum}
use velox_project.Csum16.Fold.{fold-lt, fold-mod}

-- The plain sum of the 16-bit words, with no wrap.
unfoldable pub word_sum : List ℕ → ℕ
word_sum [] = 0
word_sum (a ∷ []) = a
word_sum (a ∷ b ∷ rest) = a + 256 * b + word_sum rest

pub add_words-word_sum : (s : ℕ) (bs : List ℕ) → s < 2 ^ 32 → add_words s bs ≡ u32 (s + word_sum bs)
unfolding add_words word_sum
add_words-word_sum s [] h = omega arith
add_words-word_sum s (a ∷ []) h = refl
add_words-word_sum s (a ∷ b ∷ rest) h =
    add_words-word_sum (u32 (s + (a + 256 * b))) rest (omega arith) ∙ omega arith

-- A run of whole words in front adds its own sum.
pub word_sum-append :
    (xs ys : List ℕ) → length xs % 2 ≡ 0 → word_sum (xs ++ ys) ≡ word_sum xs + word_sum ys
unfolding word_sum
word_sum-append [] ys h = omega arith
word_sum-append (a ∷ []) ys h = absurd (omega arith)
word_sum-append (a ∷ b ∷ rest) ys h = omega (arith, word_sum-append rest ys (omega arith))

pub word_sum-le : (xs : List ℕ) → All IsByte xs → word_sum xs ≤ 32768 * length xs
unfolding word_sum
word_sum-le [] h = omega arith
word_sum-le (a ∷ []) h = omega arith
word_sum-le (a ∷ b ∷ rest) h = omega (arith, word_sum-le rest h.1.1)

-- The 16 bits that are stored, from the plain sum.
pub checksum-u16 :
    (bs : List ℕ) (start : ℕ)
    → start + word_sum bs < 2 ^ 32
    → u16 (checksum bs start) ≡ 65535 - fold fold_fuel (start + word_sum bs)
unfolding checksum
checksum-u16 bs start h = rw folds (omega (arith, fold-lt (start + word_sum bs) h))
  where
    folds : fold fold_fuel (add_words (u32 start) bs) ≡ fold fold_fuel (start + word_sum bs)
    folds = ap (fold fold_fuel) (omega (arith, add_words-word_sum (u32 start) bs (omega arith)))

-- A sum that is a positive multiple of 65535 is stored as zero.
checksum_of_multiple :
    (bs : List ℕ) (start : ℕ)
    → start + word_sum bs < 2 ^ 32
    → (start + word_sum bs) % 65535 ≡ 0
    → 0 < start + word_sum bs
    → u16 (checksum bs start) ≡ 0
checksum_of_multiple bs start h m p = ground (
  arith,
  checksum-u16 bs start h,
  fold-lt (start + word_sum bs) h,
  fold-mod fold_fuel (start + word_sum bs) h,
)

-- A run whose plain sum is that of another plus the checksum of that other sums to zero.
pub checksum_completes :
    (bs bs' : List ℕ) (start start' : ℕ)
    → start + word_sum bs + 65535 < 2 ^ 32
    → start' + word_sum bs' ≡ start + word_sum bs + u16 (checksum bs start)
    → u16 (checksum bs' start') ≡ 0
checksum_completes bs bs' start start' room sums =
    checksum_of_multiple bs' start' (omega (arith, stored)) (omega (arith, stored, folded))
      (ground (arith, stored, folded))
  where
    plain : ℕ
    plain = start + word_sum bs

    stored : u16 (checksum bs start) + fold fold_fuel plain ≡ 65535
    stored = omega (arith, checksum-u16 bs start (omega arith), fold-lt plain (omega arith))

    folded :
        (fold fold_fuel plain % 65535 ≡ plain % 65535)
        × (fold fold_fuel plain < 2 ^ 16)
        × (plain ≡ 0 → fold fold_fuel plain ≡ 0)
    folded =
        let m = fold-mod fold_fuel plain (omega arith) in (m.0, fold-lt plain (omega arith), m.1.1)

-- A 16-bit field at an even offset counts as its value.
pub word_sum-field :
    (pre post : List ℕ) (c : ℕ)
    → length pre % 2 ≡ 0
    → c < 2 ^ 16
    → word_sum (pre ++ (le16 c ++ post)) ≡ word_sum pre + c + word_sum post
unfolding word_sum
word_sum-field pre post c even fits = omega (arith, word_sum-append pre (le16 c ++ post) even)

-- The checksum that is computed while the field, at an even offset, is zero makes the whole run
-- sum to zero once it is stored in the field, whatever the start sum that both sides add, as long
-- as the plain sum leaves room for one more word below 2^32.
pub checksum_verifies :
    (pre post : List ℕ) (start : ℕ)
    → length pre % 2 ≡ 0
    → start + word_sum pre + word_sum post + 65535 < 2 ^ 32
    → u16 (checksum (pre ++ (le16 (u16 (checksum (pre ++ (le16 0 ++ post)) start)) ++ post)) start)
      ≡ 0
checksum_verifies pre post start even room =
    let empty = word_sum-field pre post 0 even (omega arith) in
    let bs = pre ++ (le16 0 ++ post) in
    checksum_completes bs _ start start (omega (arith, empty))
      (omega (arith, empty, word_sum-field pre post (u16 (checksum bs start)) even (omega arith)))
