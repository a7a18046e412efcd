-- ===== src/Logging/Buffers.antt =====
-- Buffers of bytes cut and joined, for src/veloxd/Logging.cpp.
use velox_project.Prelude.{
  ℕ, zero, suc, ◌+◌, ◌-◌, ◌≤◌, ◌≡◌, refl, ap, ◌∙◌, List, [], ◌∷◌, ◌++◌, length, take, drop, set,
  replicate, min, arith,
}

pub drop-append : (xs ys : List ℕ) (i : ℕ) → drop (length xs + i) (xs ++ ys) ≡ drop i ys
drop-append [] ys i = ap (λ k. drop k ys) (omega arith)
drop-append (x ∷ xs) ys i =
    (let next : suc (length xs) + i ≡ suc (length xs + i) = omega arith in
      rw next (drop-append xs ys i))

pub take-append : (xs ys : List ℕ) (i : ℕ) → take (length xs + i) (xs ++ ys) ≡ xs ++ take i ys
take-append [] ys i = ap (λ k. take k ys) (omega arith)
take-append (x ∷ xs) ys i =
    (let next : suc (length xs) + i ≡ suc (length xs + i) = omega arith in
      rw next (ap (λ l. x ∷ l) (take-append xs ys i)))

pub set-append :
    (xs : List ℕ) (y v : ℕ) (ys : List ℕ) → set (xs ++ (y ∷ ys)) (length xs) v ≡ xs ++ (v ∷ ys)
set-append [] y v ys = refl
set-append (x ∷ xs) y v ys = ap (λ l. x ∷ l) (set-append xs y v ys)

pub drop-replicate :
    (i c x : ℕ) (ys : List ℕ) → i ≤ c → drop i (replicate c x ++ ys) ≡ replicate (c - i) x ++ ys
drop-replicate zero c x ys h = ap (λ k. replicate k x ++ ys) (omega arith)
drop-replicate (suc i) zero x ys h = absurd (omega arith)
drop-replicate (suc i) (suc c) x ys h =
    drop-replicate i c x ys (omega arith) ∙ ap (λ k. replicate k x ++ ys) (omega arith)

pub take-replicate :
    (i c x : ℕ) (ys : List ℕ) → i ≤ c → take i (replicate c x ++ ys) ≡ replicate i x
take-replicate zero c x ys h = refl
take-replicate (suc i) zero x ys h = absurd (omega arith)
take-replicate (suc i) (suc c) x ys h = ap (λ l. x ∷ l) (take-replicate i c x ys (omega arith))

pub length-take : (i : ℕ) (xs : List ℕ) → length (take i xs) ≡ min (length xs) i
length-take zero xs = omega arith
length-take (suc i) [] = omega arith
length-take (suc i) (x ∷ xs) = omega (arith, length-take i xs)

pub take-min : (i : ℕ) (xs : List ℕ) → take (min (length xs) i) xs ≡ take i xs
take-min zero xs = (let none_left : min (length xs) 0 ≡ 0 = omega arith in rw none_left refl)
take-min (suc i) [] = (let none_left : min 0 (suc i) ≡ 0 = omega arith in rw none_left refl)
take-min (suc i) (x ∷ xs) =
    (let next : min (suc (length xs)) (suc i) ≡ suc (min (length xs) i) = omega arith in
      rw next (ap (λ l. x ∷ l) (take-min i xs)))
