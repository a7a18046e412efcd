-- ===== src/Logging/Digits.antt =====
-- src/veloxd/Logging.cpp, `%d`: how many digits a number has.
use velox_project.Prelude.{
  ◌%◌, ℕ, zero, suc, ◌+◌, ◌*◌, ◌/◌, ◌≤◌, ◌<◌, ◌≡◌, ◌↔◌, inl, inr, true, false, List, [], ◌∷◌,
  length, arith, ltb, Bool-cases,
}
use velox_project.Logging.{digits, decimal}

-- 10, 100, and so on.
abbrev bound : ℕ → ℕ
bound zero = 10
bound (suc k) = 10 * bound k

bound-pos : (k : ℕ) → 1 ≤ bound k
bound-pos zero = omega arith
bound-pos (suc k) = omega (arith, bound-pos k)

digits-le :
    (k f n : ℕ) (out : List ℕ) → n < f → n < bound k → length (digits f n out) ≤ suc k + length out
unfolding digits
digits-le k zero n out h b = absurd (omega arith)
digits-le zero (suc f) n out h b =
    (let small : ltb n 10 ≡ true = ground arith in rw small (omega arith))
digits-le (suc k) (suc f) n out h b = elim (Bool-cases (ltb n 10)) [
  | inl t ↦ rw t (omega arith)
  | inr g ↦
      (let large : 10 ≤ n = ground arith in
        rw g
          (omega (arith, digits-le k f (n / 10) ((48 + n % 10) ∷ out) (omega arith) (omega arith))))
]

digits_grows : (f n : ℕ) (out : List ℕ) → n < f → length out < length (digits f n out)
unfolding digits
digits_grows zero n out h = absurd (omega arith)
digits_grows (suc f) n out h = elim (Bool-cases (ltb n 10)) [
  | inl t ↦ rw t (omega arith)
  | inr g ↦
      (let large : 10 ≤ n = ground arith in
        rw g (omega (arith, digits_grows f (n / 10) ((48 + n % 10) ∷ out) (omega arith))))
]

lt-digits :
    (k f n : ℕ) (out : List ℕ) → n < f → bound k ≤ n → suc k + length out < length (digits f n out)
unfolding digits
lt-digits k zero n out h b = absurd (omega arith)
lt-digits zero (suc f) n out h b =
    (let large : ltb n 10 ≡ false = ground arith in
      rw large (omega (arith, digits_grows f (n / 10) ((48 + n % 10) ∷ out) (omega arith))))
lt-digits (suc k) (suc f) n out h b = elim (Bool-cases (ltb n 10)) [
  | inl t ↦ (let small : n < 10 = ground arith in absurd (omega (arith, bound-pos k)))
  | inr g ↦
      (let large : 10 ≤ n = ground arith in
        rw g
          (omega (arith, lt-digits k f (n / 10) ((48 + n % 10) ∷ out) (omega arith) (omega arith))))
]

-- At most four digits, exactly below 10000.
pub decimal-le_iff : (n : ℕ) → (length (decimal n) ≤ 4) ↔ (n < 10000)
unfolding decimal
decimal-le_iff n = (
  (λ h. elim (Bool-cases (ltb n 10000)) [
    | inl t ↦ ground arith
    | inr f ↦
        (let large : 10000 ≤ n = ground arith in
          absurd (omega (arith, lt-digits 3 (suc n) n [] (omega arith) large)))
  ]),
  (λ h. omega (arith, digits-le 3 (suc n) n [] (omega arith) h)),
)

pub lt-decimal : (n : ℕ) → 10000 ≤ n → 4 < length (decimal n)
unfolding decimal
lt-decimal n large = omega (arith, lt-digits 3 (suc n) n [] (omega arith) large)
