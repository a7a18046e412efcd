-- ===== src/Interceptor/Calls/Sending.antt =====
-- src/interceptor/req-resp-channel.c, `chan_send`, with its assertions: the Request fits a message, and it is written
-- whole. The packed size is generated code, an interface here, and so is `write` on the channel.
use velox_project.Prelude.{
  ℕ, ◌+◌, ◌≤◌, ◌<◌, ◌≡◌, ◌⊎◌, inl, inr, Bool-cases, refl, ap, ◌∙◌, Bool, true, false, Option, none,
  some, List, [], ◌∷◌, length, ltb, ◌==◌, ==_self, if◌then◌else◌, arith,
}
use velox_project.Messages.{SockAddr, Calling, sendto_call, atstart_action, Request}
use velox_project.Rpc.Sizes.{rpc_message_max_size}
use velox_project.Interceptor.{FdPool, is_assigned_by_velox, fd_chanmap}
use velox_project.Interceptor.Ends.{
  Asked, peer_gone, Outcome, aborts, passes, after, sendto_end, sizeof_sockaddr_in,
}
use velox_project.Interceptor.Calls.{sendto}

-- The bytes that a Request carries.
abbrev pub request_bytes : Calling → List ℕ
request_bytes (sendto_call buf addr) = buf
request_bytes (atstart_action progname) = progname
request_bytes _ = []

-- `request__get_packed_size`, by the encoding of protocol buffers: the bytes themselves, and less than 128 for the rest.
pub record Packing : Type 0 where
  pub packed_size : Request → ℕ
  pub carries : (req : Request) → length (request_bytes req.calling) ≤ packed_size req
  pub overhead : (req : Request) → packed_size req ≤ length (request_bytes req.calling) + 128

module _ (B : Packing) (written : ℕ → Option ℕ) where
  -- `chan_send`; `written` is what `write` returns for a number of bytes, `none` its -1. False is a failed
  -- assertion.
  pub chan_send : Request → Bool
  chan_send req =
      let bufsize = B.packed_size req in
      if ltb rpc_message_max_size bufsize
      then false
      else elim (written bufsize) [ none ↦ false | some nwritten ↦ nwritten == bufsize ]

  -- A request of process `pid` through `chan_send`, to what answers behind it.
  pub sends : ℕ → (Option ℕ → Calling → Asked) → Option ℕ → Calling → Asked
  unfolding chan_send
  sends pid ask ch calling =
      if chan_send (record { calling = calling; pid = pid }) then ask ch calling else peer_gone

  chan_send-cases :
      (req : Request)
      → ((n : ℕ) → written n ≡ some n)
      → ((chan_send req ≡ true) × (length (request_bytes req.calling) ≤ rpc_message_max_size))
        ⊎ ((chan_send req ≡ false)
            × (rpc_message_max_size < length (request_bytes req.calling) + 128))
  unfolding chan_send
  chan_send-cases req writes =
      let bufsize = B.packed_size req in
      let carried = B.carries req in
      let over = B.overhead req in
      elim (Bool-cases (ltb rpc_message_max_size bufsize)) [
        | inl t ↦ inr (rw (chan_send, t) refl, ground arith)
        | inr n ↦ inl (rw (chan_send, n) (rw (writes bufsize) (==_self bufsize)), ground arith)
      ]

  -- A request that is not sent ends the program, and one that is sent is as without `chan_send`.
  Sent : ℕ → (Option ℕ → Calling → Asked) → Option ℕ → Calling → Type 0
  Sent pid ask ch calling =
      ((sends pid ask ch calling ≡ ask ch calling)
        × (length (request_bytes calling) ≤ rpc_message_max_size))
      ⊎ ((sends pid ask ch calling ≡ peer_gone)
          × (rpc_message_max_size < length (request_bytes calling) + 128))

  sends-cases :
      (pid : ℕ) (ask : Option ℕ → Calling → Asked) (ch : Option ℕ) (calling : Calling)
      → ((n : ℕ) → written n ≡ some n)
      → Sent pid ask ch calling
  unfolding Sent sends
  sends-cases pid ask ch calling writes =
      elim (chan_send-cases (record { calling = calling; pid = pid }) writes) [
        | inl (t, fits) ↦ inl (rw (sends, t) refl, fits)
        | inr (f, long) ↦ inr (rw (sends, f) refl, long)
      ]

  -- `sendto` of a program on a descriptor of Velox, with some bytes, while `write` on the channel writes what it is given:
  -- either the bytes are at most 81920, and the call is what it is without the assertions of `chan_send`; or they
  -- are more than 81792, and the program aborts. The size of a Request is that of its bytes and at most 128 for the
  -- rest.
  pub sendto-sends :
      (p : FdPool) (ask : Option ℕ → Calling → Asked) (pid fd b : ℕ) (bs : List ℕ)
      (dest : Option (SockAddr × ℕ))
      → is_assigned_by_velox p fd ≡ true
      → ((n : ℕ) → written n ≡ some n)
      → ((sendto p (sends pid ask) fd (some (b ∷ bs)) dest ≡ sendto p ask fd (some (b ∷ bs)) dest)
          × (length (b ∷ bs) ≤ rpc_message_max_size))
        ⊎ ((sendto p (sends pid ask) fd (some (b ∷ bs)) dest ≡ aborts)
            × (rpc_message_max_size < length (b ∷ bs) + 128))
  unfolding sendto Sent after
  sendto-sends p ask pid fd b bs none own writes =
      let ending : Asked → Outcome = λ r.
        if is_assigned_by_velox p fd then after r (λ resp. sendto_end resp.returning) else passes in
      elim (sends-cases pid ask (fd_chanmap p fd) (sendto_call (b ∷ bs) none) writes) [
        | inl (e, fits) ↦ inl (ap ending e, fits)
        | inr (e, long) ↦ inr (ap ending e ∙ rw own refl, long)
      ]
  sendto-sends p ask pid fd b bs (some (addr, addrlen)) own writes =
      let ending : Asked → Outcome = λ r.
        if is_assigned_by_velox p fd
        then (if addrlen == sizeof_sockaddr_in
            then after r (λ resp. sendto_end resp.returning)
            else aborts)
        else passes in
      let gone : ending peer_gone ≡ aborts = elim (Bool-cases (addrlen == sizeof_sockaddr_in)) [
        | inl t ↦ rw (own, t) refl
        | inr n ↦ rw (own, n) refl
      ] in
      elim (sends-cases pid ask (fd_chanmap p fd) (sendto_call (b ∷ bs) (some addr)) writes) [
        | inl (e, fits) ↦ inl (ap ending e, fits)
        | inr (e, long) ↦ inr (ap ending e ∙ gone, long)
      ]
