-- ===== src/Csum16/Fold.antt =====
-- src/veloxd/base/Csum16.cpp: the folding loop keeps the sum modulo 65535, and ends.
use velox_project.Prelude.{
  ℕ, zero, suc, ◌+◌, ◌*◌, ◌/◌, ◌%◌, ◌^◌, ◌≤◌, ◌<◌, ◌≡◌, refl, ap, sym, ◌∙◌, ◌↔◌, arith, bit_and_low,
  ◌==◌, if◌then◌else◌,
}
use velox_project.Csum16.{fold, fold_fuel}

-- One round on a 32-bit sum, with the mask read as a remainder.
fold-suc :
    (fuel s : ℕ)
    → s < 2 ^ 32
    → fold (suc fuel) s ≡ (if s / 2 ^ 16 == 0 then s else fold fuel (s % 2 ^ 16 + s / 2 ^ 16))
unfolding fold
fold-suc fuel s h = ground (arith, bit_and_low 16 s)

fold_16 : (fuel s : ℕ) → s < 2 ^ 16 → fold fuel s ≡ s
unfolding fold
fold_16 zero s h = refl
fold_16 (suc fuel) s h = ground arith

fold_17 : (fuel s : ℕ) → s ≤ 2 * 65535 → fold (suc fuel) s < 2 ^ 16
fold_17 fuel s h =
    ground (arith, fold-suc fuel s (omega arith), fold_16 fuel (s % 2 ^ 16 + s / 2 ^ 16))

-- From any 32-bit sum the loop ends by its own test within the fuel: the result fits 16 bits.
pub fold-lt : (s : ℕ) → s < 2 ^ 32 → fold fold_fuel s < 2 ^ 16
fold-lt s h = ground (arith, fold-suc 2 s h, fold_17 1 (s % 2 ^ 16 + s / 2 ^ 16))

-- Folding keeps the value modulo 65535, and only zero folds to zero.
pub fold-mod :
    (fuel s : ℕ) → s < 2 ^ 32 → (fold fuel s % 65535 ≡ s % 65535) × ((fold fuel s ≡ 0) ↔ (s ≡ 0))
unfolding fold
fold-mod zero s h = (refl, ((λ e. e), (λ e. e)))
fold-mod (suc fuel) s h =
    ground (arith, bit_and_low 16 s, fold-mod fuel (s % 2 ^ 16 + s / 2 ^ 16) (omega arith))

fold_17_eq :
    (fuel s : ℕ)
    → s ≤ 2 * 65535
    → fold (suc fuel) s ≡ (if s / 2 ^ 16 == 0 then s else s % 2 ^ 16 + s / 2 ^ 16)
fold_17_eq fuel s h =
    ground (arith, fold-suc fuel s (omega arith), fold_16 fuel (s % 2 ^ 16 + s / 2 ^ 16))

-- The folding loop ends: from any sum of 32 bits its test fails after at most three rounds, with a
-- sum of 16 bits, and more fuel changes nothing.
pub fold_terminates :
    (extra s : ℕ)
    → s < 2 ^ 32
    → (fold fold_fuel s / 2 ^ 16 ≡ 0) × (fold (suc (suc (suc extra))) s ≡ fold fold_fuel s)
fold_terminates extra s h = (
  omega (arith, fold-lt s h),
  fold-suc (suc (suc extra)) s h
      ∙ ap (λ r. if s / 2 ^ 16 == 0 then s else r)
          (fold_17_eq (suc extra) (s % 2 ^ 16 + s / 2 ^ 16) (omega arith)
            ∙ sym (fold_17_eq 1 (s % 2 ^ 16 + s / 2 ^ 16) (omega arith)))
      ∙ sym (fold-suc 2 s h),
)
