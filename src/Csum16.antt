-- ===== src/Csum16.antt =====
-- src/veloxd/base/Csum16.cpp: the Internet checksum of RFC 1071 over a run of bytes. The inner
-- loop reads 16-bit words as the little-endian host does; a left-over byte counts as it is.
pub mod Fold
pub mod Verify
use velox_project.Prelude.{
  ℕ, zero, suc, ◌+◌, ◌-◌, ◌*◌, ◌/◌, ◌%◌, ◌^◌, List, [], ◌∷◌, bit_and, u32, ◌==◌, if◌then◌else◌,
}

-- The `uint32_t` sum wraps at every addition.
pub add_words : ℕ → List ℕ → ℕ
add_words sum [] = sum
add_words sum (a ∷ []) = u32 (sum + a)
add_words sum (a ∷ b ∷ rest) = add_words (u32 (sum + (a + 256 * b))) rest

-- `while (sum >> 16) sum = (sum & 0xffff) + (sum >> 16);` with fuel.
pub fold : ℕ → ℕ → ℕ
fold zero sum = sum
fold (suc fuel) sum =
    let rest = fold fuel (u32 (bit_and sum 0xffff + sum / 2 ^ 16)) in
    if sum / 2 ^ 16 == 0 then sum else rest

-- Three rounds end the loop from any 32-bit sum.
abbrev pub fold_fuel : ℕ
fold_fuel = 3

-- `~sum` on 32 bits.
unfoldable pub checksum : List ℕ → ℕ → ℕ
checksum bytes start_sum = 2 ^ 32 - 1 - fold fold_fuel (add_words (u32 start_sum) bytes)
