-- ===== src/Interceptor/Start/Reading.antt =====
-- src/interceptor/req-resp-channel.c, `chan_recv`: which response the loop over the reads returns.
use velox_project.Prelude.{
  ℕ, ◌≡◌, ◌≢◌, ◌⊎◌, inl, inr, refl, ap, Option, none, some, List, [], ◌∷◌, ◌++◌, All, true, false,
}
use velox_project.Messages.{Response, Returning, RetCode, ok, error, wait_next}
use velox_project.Interceptor.{is_wait_next}
use velox_project.Interceptor.Start.{Read, received, waits, asserts, null_pointer, chan_recv_reads}

code_cases :
    (code : Option RetCode) (r : Returning)
    → let w = is_wait_next (record { ret_code = code; returning = r }) in
      ((w ≡ true) × (code ≡ some wait_next)) ⊎ ((w ≡ false) × (code ≢ some wait_next))
code_cases none r = inr (refl, λ e. cc)
code_cases (some ok) r = inr (refl, λ e. cc)
code_cases (some error) r = inr (refl, λ e. cc)
code_cases (some wait_next) r = inl (refl, refl)

is_wait_next-cases :
    (resp : Response)
    → ((is_wait_next resp ≡ true) × (resp.ret_code ≡ some wait_next))
      ⊎ ((is_wait_next resp ≡ false) × (resp.ret_code ≢ some wait_next))
is_wait_next-cases resp = code_cases resp.ret_code resp.returning

module _ (unpack : List ℕ → Option Response) where
  -- A read that the loop passes over: it failed, or gave a message whose code is WAIT_NEXT.
  abbrev pub IsPassed : Option (List ℕ) → Type 0
  IsPassed none = Unit
  IsPassed (some []) = ⊥
  IsPassed (some (b ∷ bs)) =
      (resp : Response) × (unpack (b ∷ bs) ≡ some resp) × (resp.ret_code ≡ some wait_next)

  -- What a read that ends the loop gives.
  abbrev pub IsEnd : List ℕ → Response → Type 0
  IsEnd bytes resp = (bytes ≢ []) × (unpack bytes ≡ some resp) × (resp.ret_code ≢ some wait_next)

  -- The end of `chan_recv` on these reads: behind reads that are all passed over stands a message that is returned with
  -- the reads behind it, the end of file, or a message that does not unpack; or there is no other read.
  abbrev pub ReadsTo : List (Option (List ℕ)) → Read → Type 0
  ReadsTo reads waits = All IsPassed reads
  ReadsTo reads asserts =
      (before : List (Option (List ℕ))) × (rest : List (Option (List ℕ))) × All IsPassed before
      × (reads ≡ before ++ (some [] ∷ rest))
  ReadsTo reads null_pointer =
      (before : List (Option (List ℕ))) × (bytes : List ℕ) × (rest : List (Option (List ℕ))) × All
        IsPassed before
      × (reads ≡ before ++ (some bytes ∷ rest))
      × (bytes ≢ [])
      × (unpack bytes ≡ none)
  ReadsTo reads (received resp rest) =
      (before : List (Option (List ℕ))) × (bytes : List ℕ) × All IsPassed before
      × (reads ≡ before ++ (some bytes ∷ rest))
      × IsEnd bytes resp

  ReadsTo-cons :
      (read : Option (List ℕ)) (reads : List (Option (List ℕ))) (r : Read)
      → IsPassed read
      → ReadsTo reads r
      → ReadsTo (read ∷ reads) r
  ReadsTo-cons read reads waits p h = (p, h)
  ReadsTo-cons read reads asserts p (before, rest, passed, e) =
      (read ∷ before, rest, (p, passed), ap (λ rs. read ∷ rs) e)
  ReadsTo-cons read reads null_pointer p (before, bytes, rest, passed, e, ne, bad) =
      (read ∷ before, bytes, rest, (p, passed), ap (λ rs. read ∷ rs) e, ne, bad)
  ReadsTo-cons read reads (received resp rest) p (before, bytes, passed, e, end) =
      (read ∷ before, bytes, (p, passed), ap (λ rs. read ∷ rs) e, end)

  Option-cases : (o : Option Response) → (o ≡ none) ⊎ ((resp : Response) × (o ≡ some resp))
  Option-cases none = inl refl
  Option-cases (some resp) = inr (resp, refl)

  -- `chan_recv` passes over reads that fail, whatever their error, and over WAIT_NEXT, and ends with the first read that is
  -- neither: it returns that message, whose code is another, and leaves the reads behind it; it fails the
  -- assertion at the end of file, and meets the null pointer of a message that does not unpack. Without such a read it
  -- still waits.
  pub chan_recv_reads-ReadsTo :
      (reads : List (Option (List ℕ))) → ReadsTo reads (chan_recv_reads unpack reads)
  unfolding chan_recv_reads
  chan_recv_reads-ReadsTo [] = tt
  chan_recv_reads-ReadsTo (none ∷ reads) =
      ReadsTo-cons none reads (chan_recv_reads unpack reads) tt (chan_recv_reads-ReadsTo reads)
  chan_recv_reads-ReadsTo (some [] ∷ reads) = ([], reads, tt, refl)
  chan_recv_reads-ReadsTo (some (b ∷ bs) ∷ reads) = elim (Option-cases (unpack (b ∷ bs))) [
    | inl e ↦ rw (e, chan_recv_reads) ([], b ∷ bs, reads, tt, refl, (λ n. cc), e)
    | inr (resp, e) ↦ elim (is_wait_next-cases resp) [
      | inl (t, w) ↦
          rw (e, chan_recv_reads)
            (rw t (
              ReadsTo-cons (some (b ∷ bs)) reads (chan_recv_reads unpack reads) (resp, e, w)
                (chan_recv_reads-ReadsTo reads)))
      | inr (n, w) ↦ rw (e, chan_recv_reads) (rw n ([], b ∷ bs, tt, refl, ((λ n. cc), e, w)))
    ]
  ]
