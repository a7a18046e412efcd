-- ===== src/Prelude/Words.antt =====
-- Casts to the fixed widths, and the byte order of a little-endian host: a `__be16` field is held
-- as the number that the host reads from its two bytes, and `swap16` is `htons`, `ntohs`,
-- `__cpu_to_be16` and `__be16_to_cpu` there.
use Prim.Native.Nat.{ℕ, suc, ◌+◌, ◌-◌, ◌*◌, ◌/◌, ◌%◌, ◌^◌, ◌<◌}
use mathlib.Core.Path.{◌≡◌}
use mathlib.Core.List.{List, [], ◌∷◌}
use mathlib.Core.Option
use native.Mathlib.Omega.{arith}
use velox_project.Prelude.Lists.{get_elem?}

abbrev pub u8 : ℕ → ℕ
u8 n = n % 2 ^ 8

abbrev pub u16 : ℕ → ℕ
u16 n = n % 2 ^ 16

abbrev pub u32 : ℕ → ℕ
u32 n = n % 2 ^ 32

-- A difference of two values of 32 bits; the modulus is added since `-` stops at 0.
abbrev pub sub32 : ℕ → ℕ → ℕ
sub32 a b = (a + 2 ^ 32 - b) % 2 ^ 32

abbrev pub swap16 : ℕ → ℕ
swap16 n = n % 256 * 256 + n / 256 % 256

abbrev pub swap32 : ℕ → ℕ
swap32 n = swap16 (n % 2 ^ 16) * 2 ^ 16 + swap16 (n / 2 ^ 16 % 2 ^ 16)

pub swap16-swap16 : (n : ℕ) → n < 2 ^ 16 → swap16 (swap16 n) ≡ n
swap16-swap16 n h = omega arith

pub swap16-lt : (n : ℕ) → swap16 n < 2 ^ 16
swap16-lt n = omega arith

-- The bytes of a field in memory, as a little-endian host stores it.
abbrev pub le16 : ℕ → List ℕ
le16 n = n % 256 ∷ n / 256 % 256 ∷ []

abbrev pub le32 : ℕ → List ℕ
le32 n = n % 256 ∷ n / 256 % 256 ∷ n / 2 ^ 16 % 256 ∷ n / 2 ^ 24 % 256 ∷ []

abbrev pub IsByte : ℕ → Type 0
IsByte b = b < 256

-- What a read at an offset of a buffer gives; behind the end of the list the buffer holds zeros.
abbrev pub byte_at : List ℕ → ℕ → ℕ
byte_at bytes i = Option.get_or (get_elem? bytes i) 0

abbrev pub word_at : List ℕ → ℕ → ℕ
word_at bytes i = byte_at bytes i + 256 * byte_at bytes (suc i)

abbrev pub long_at : List ℕ → ℕ → ℕ
long_at bytes i = word_at bytes i + 2 ^ 16 * word_at bytes (suc (suc i))
