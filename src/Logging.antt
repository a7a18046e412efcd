-- ===== src/Logging.antt =====
-- src/veloxd/Logging.cpp: the name and the line of a source file in a line of the log. Texts are lists of bytes.
pub mod Digits
pub mod Buffers
pub mod Padding
pub mod Paths
use velox_project.Prelude.{
  ℕ, zero, suc, ◌+◌, ◌/◌, ◌%◌, ◌≡◌, refl, Bool, ◌||◌, Option, none, some, List, [], ◌∷◌, ◌++◌,
  length, take, drop, set, replicate, min, max, codes, ltb, ◌==◌, if◌then◌else◌,
}

-- What `find_last_of("/\\")` looks for.
abbrev pub is_separator : ℕ → Bool
is_separator c = (c == b'/') || (c == 92)

-- `none` is `npos`.
pub find_last_of : List ℕ → Option ℕ
find_last_of [] = none
find_last_of (c ∷ rest) = elim (find_last_of rest) [
  | none ↦ if is_separator c then some 0 else none
  | some i ↦ some (suc i)
]

-- `npos + 1` is 0.
abbrev pub behind : Option ℕ → ℕ
behind none = 0
behind (some i) = suc i

pub path_to_filename : List ℕ → List ℕ
unfolding find_last_of
path_to_filename path = drop (behind (find_last_of path)) path

-- `%d` of a number that is not negative; the number is fuel enough.
pub digits : ℕ → ℕ → List ℕ → List ℕ
digits zero n out = out
digits (suc f) n out =
    let more = digits f (n / 10) ((b'0' + n % 10) ∷ out) in
    if ltb n 10 then (b'0' + n) ∷ out else more

pub decimal : ℕ → List ℕ
unfolding digits
decimal n = digits (suc n) n []

abbrev pub space : ℕ
space = 32

-- `memcpy` to the start of a buffer, and `snprintf` of a text at a place, with room for 5 bytes and the NUL.
pub memcpy : List ℕ → List ℕ → List ℕ
memcpy buf src = src ++ drop (length src) buf

pub snprintf : List ℕ → ℕ → List ℕ → List ℕ
snprintf buf i text =
    let out = take 5 text in take i buf ++ (out ++ (0 ∷ drop (i + (length out + 1)) buf))

-- `file_lineno_with_padding`: `padded` has 24 bytes, the last of which is not set at first. `none` is the write behind
-- its end.
unfoldable pub file_lineno_with_padding : ℕ → List ℕ → ℕ → Option (List ℕ)
unfolding memcpy snprintf decimal
file_lineno_with_padding unset filename lineno =
    let padded = replicate 23 space ++ (unset ∷ []) in
    let nbytes_to_copy = min (length filename) 18 in
    let named = memcpy padded (take nbytes_to_copy filename) in
    let line = b':' ∷ decimal lineno in
    let numbered = snprintf named nbytes_to_copy line in
    let i = nbytes_to_copy + length line in
    if ltb i 24 then some (take (max i 17) (set numbered i space)) else none
