-- ===== src/Interceptor/Polling.antt =====
-- src/interceptor/interceptor.c, `poll`, and req-resp-channel.c, `chan_recv`.
use velox_project.Prelude.{
  ℕ, ◌+◌, ◌≡◌, ◌≢◌, inl, inr, refl, ap, sym, ◌∙◌, Bool, true, false, not, ◌&&◌, some, List, [], ◌∷◌,
  ◌++◌, map, arith, All, ltb, ◌==◌, if◌then◌else◌, bit_and, length, count_if, Bool-cases,
  Option-cases,
}
use velox_project.Messages.{Response}
use velox_project.Interceptor.{
  FdPool, is_assigned_by_velox, is_wait_next, chan_recv, PollFd, reported, Polled, clear, non_velox,
  give_back, mark_ready, is_ready, kernel_fds, kernel_ready, poll,
}

-- However many WAIT_NEXT arrive first, `chan_recv` returns the first answer that is something else,
-- and leaves those behind it.
pub chan_recv_skips :
    (waits : List Response) (resp : Response) (rest : List Response)
    → All (λ r. is_wait_next r ≡ true) waits
    → is_wait_next resp ≡ false
    → chan_recv (waits ++ (resp ∷ rest)) ≡ some (resp, rest)
unfolding chan_recv
chan_recv_skips [] resp rest h last = rw last refl
chan_recv_skips (w ∷ waits) resp rest h last = rw h.0 (chan_recv_skips waits resp rest h.1 last)

abbrev one : Bool → ℕ
one true = 1
one false = 0

count_cons :
    (q : PollFd → Bool) (f : PollFd) (fds : List PollFd)
    → count_if q (f ∷ fds) ≡ one (q f) + count_if q fds
count_cons q f fds = elim (Bool-cases (q f)) [
  | inl t ↦ rw (t, count_if) (omega arith)
  | inr n ↦ rw (n, count_if) (omega arith)
]

count_skip :
    (q : PollFd → Bool) (f : PollFd) (fds : List PollFd)
    → q f ≡ false
    → count_if q (f ∷ fds) ≡ count_if q fds
count_skip q f fds e = omega (arith, count_cons q f fds, ap one e)

one_split : (a r : Bool) → one r ≡ one (not a && r) + one (a && r)
one_split true true = refl
one_split true false = refl
one_split false true = refl
one_split false false = refl

module _ (p : FdPool) where
  -- The ready entries among the descriptors that are not Velox's, and among those that are.
  own_ready : PollFd → Bool
  own_ready f = is_assigned_by_velox p f.fd && is_ready p f

  other_ready : PollFd → Bool
  other_ready f = not (is_assigned_by_velox p f.fd) && is_ready p f

  count_split :
      (fds : List PollFd)
      → count_if (is_ready p) fds ≡ count_if other_ready fds + count_if own_ready fds
  unfolding own_ready other_ready
  count_split [] = omega arith
  count_split (f ∷ fds) = omega (
    arith,
    count_split fds,
    count_cons (is_ready p) f fds,
    count_cons other_ready f fds,
    count_cons own_ready f fds,
    one_split (is_assigned_by_velox p f.fd) (is_ready p f),
  )

  mark_ready_own :
      (f : PollFd) → is_assigned_by_velox p f.fd ≡ true → other_ready (mark_ready p f) ≡ false
  unfolding other_ready mark_ready
  mark_ready_own f a = rw (a, a) refl

  mark_ready_other : (f : PollFd) → is_assigned_by_velox p f.fd ≡ false → mark_ready p f ≡ f
  unfolding mark_ready
  mark_ready_other f a = rw a refl

  other_ready_other :
      (f : PollFd) → is_assigned_by_velox p f.fd ≡ false → other_ready f ≡ is_ready p f
  unfolding other_ready
  other_ready_other f a = rw a refl

  -- Without other descriptors none of them is ready.
  own_only :
      (fds : List PollFd)
      → length (non_velox p fds) ≡ 0
      → count_if other_ready (map (mark_ready p) fds) ≡ 0
  unfolding non_velox
  own_only [] h = refl
  own_only (f ∷ fds) h = elim (Bool-cases (is_assigned_by_velox p f.fd)) [
    | inl a ↦
        count_skip other_ready (mark_ready p f) (map (mark_ready p) fds) (mark_ready_own f a)
        ∙ own_only fds (rw a at h)
    | inr a ↦ (let l = rw a at h in absurd (omega (arith, l)))
  ]

  -- Cleared entries of other descriptors are not ready.
  clear_count : (fds : List PollFd) → count_if other_ready (map (mark_ready p) (clear p fds)) ≡ 0
  unfolding clear
  clear_count [] = refl
  clear_count (f ∷ fds) =
      let f0 = clear_one f in
      elim (Bool-cases (is_assigned_by_velox p f.fd)) [
        | inl a ↦ count_skip other_ready (mark_ready p f0) _ (mark_ready_own f0 a) ∙ clear_count fds
        | inr a ↦
            count_skip other_ready (mark_ready p f0) _
              (ap other_ready (mark_ready_other f0 a) ∙ other_ready_other f0 a)
            ∙ clear_count fds
      ]
    where
      clear_one : PollFd → PollFd
      clear_one g = record g { revents = 0 }

  abbrev given : PollFd → PollFd → PollFd
  given f r = record f { revents = r.revents }

  -- The kernel's results, given back and marked, count as the kernel's results.
  give_back_count :
      (fds results : List PollFd)
      → length results ≡ length (non_velox p fds)
      → count_if other_ready (map (mark_ready p) (give_back p fds results))
        ≡ count_if (is_ready p) results
  unfolding give_back non_velox
  give_back_count [] [] h = refl
  give_back_count [] (r ∷ results) h = absurd (omega arith)
  give_back_count (f ∷ fds) [] h = own_only (f ∷ fds) (sym h)
  give_back_count (f ∷ fds) (r ∷ results) h = elim (Bool-cases (is_assigned_by_velox p f.fd)) [
    | inl a ↦ rw a (
        count_skip other_ready (mark_ready p f) _ (mark_ready_own f a)
        ∙ give_back_count fds (r ∷ results) (rw a at h))
    | inr a ↦ rw a (
        omega (
          arith,
          count_cons other_ready (mark_ready p (given f r))
              (map (mark_ready p) (give_back p fds results)),
          count_cons (is_ready p) r results,
          give_back_count fds results (omega (arith, rw a at h)),
          ap one
              (ap other_ready (mark_ready_other (given f r) a) ∙ other_ready_other (given f r) a),
        ))
  ]

  -- A descriptor of Velox is ready for what was asked of it.
  abbrev pub IsShown : PollFd → Type 0
  IsShown f = is_assigned_by_velox p f.fd ≡ true → f.revents ≡ bit_and f.events reported

  mark_ready-IsShown : (fds : List PollFd) → All IsShown (map (mark_ready p) fds)
  unfolding mark_ready
  mark_ready-IsShown [] = tt
  mark_ready-IsShown (f ∷ fds) = (
    elim (Bool-cases (is_assigned_by_velox p f.fd)) [
      | inl a ↦ rw (a, a) (λ t. refl)
      | inr a ↦ rw a (λ t. cc (a, t))
    ],
    mark_ready-IsShown fds,
  )

  -- What the kernel's part adds to the number.
  kernel_count :
      (fds : List PollFd) (k : Polled)
      → length k.fds ≡ length (non_velox p (clear p fds))
      → count_if other_ready (map (mark_ready p) (kernel_fds p (clear p fds) k)) ≡ kernel_ready p k
  unfolding kernel_fds kernel_ready
  kernel_count fds k h = elim (Option-cases k.ret) [
    | inl n ↦ rw (n, kernel_fds, kernel_ready) (clear_count fds)
    | inr (r, e) ↦
        rw (e, kernel_fds, kernel_ready)
          (elim (Bool-cases (ltb 0 r)) [
            | inl t ↦ rw t (give_back_count (clear p fds) k.fds h)
            | inr n ↦ rw n (clear_count fds)
          ])
  ]

  asked_count :
      (fds : List PollFd) (k : Polled)
      → length k.fds ≡ length (non_velox p (clear p fds))
      → let asked = ltb 0 (length (non_velox p (clear p fds))) in
        count_if other_ready
          (map (mark_ready p) (if asked then kernel_fds p (clear p fds) k else clear p fds))
        ≡ (if asked then kernel_ready p k else 0)
  asked_count fds k h = elim (Bool-cases (ltb 0 (length (non_velox p (clear p fds))))) [
    | inl t ↦ rw t (kernel_count fds k h)
    | inr n ↦ rw n (clear_count fds)
  ]

  -- With a descriptor of Velox among the entries, `poll` returns the number of entries that it leaves
  -- with something in `revents`, and those of Velox are ready for what was asked of them. The C library's `poll` keeps the
  -- number of entries.
  pub poll-ret :
      (glibc_poll : List PollFd → ℕ → Polled)
      → ((fs : List PollFd) (t : ℕ) → length (glibc_poll fs t).fds ≡ length fs)
      → (fds : List PollFd) (timeout : ℕ) → length (non_velox p (clear p fds)) ≢ length fds
      → let result = poll p glibc_poll fds timeout in
        (result.ret ≡ some (count_if (is_ready p) result.fds)) × All IsShown result.fds
  unfolding poll own_ready
  poll-ret glibc_poll keeps fds timeout mixed = rw (not_equal) (
    ap some (
        ap (λ n. n + count_if own_ready (map (mark_ready p) shown))
          (sym (asked_count fds k (keeps (non_velox p (clear p fds)) 0)))
        ∙ sym (count_split (map (mark_ready p) shown))),
    mark_ready-IsShown shown,
  )
    where
      not_equal : (length (non_velox p (clear p fds)) == length fds) ≡ false
      not_equal = ground arith

      k : Polled
      k = glibc_poll (non_velox p (clear p fds)) 0

      shown : List PollFd
      shown =
          if ltb 0 (length (non_velox p (clear p fds)))
          then kernel_fds p (clear p fds) k
          else clear p fds
