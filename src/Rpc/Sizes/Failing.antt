-- ===== src/Rpc/Sizes/Failing.antt =====
-- src/veloxd/arbiter/agent/AgentChannel.cpp: the requests that end the daemon, the size of the answer included.
use velox_project.Prelude.{
  ℕ, ◌+◌, ◌≤◌, ◌<◌, ◌≡◌, ◌≢◌, ◌↔◌, ◌⊎◌, inl, inr, refl, ap, sym, subst, ◌∙◌, Bool, true, Option,
  none, some, [], length, ltb, arith, Bool-cases,
}
use mathlib.Core.Option.{some-injective, none-ne-some}
use velox_project.Endpoint.{Endpoint, Received, try_take_from_recv_q}
use velox_project.Pcb.{Daemon}
use velox_project.Messages.{
  Calling, socket_call, connect_call, close_call, recvfrom_call, sendto_call, poll_call,
  select_call, getpeername_call, getsockname_call, getsockopt_call, setsockopt_call, fcntl_call,
  atstart_action, calling_not_set, Request, Returning, Response, Socket, Channel, Answer, Result,
  fails, answers,
}
use velox_project.Rpc.{
  recvfrom_response, on_read_ready, recvfrom_with, write, with_socket, handle_request,
  handle_calling, recvfrom_call_handler,
}
use velox_project.Rpc.Typing.{Returns, IsTyped, on_read_ready-IsTyped}
use velox_project.Rpc.Assertions.{Ends, on_read_ready-fails_iff}
use velox_project.Rpc.Sizes.{
  rpc_message_max_size, buf_of, Encoding, fits_message, check_size, on_message, IsTooLarge,
}

module _ (B : Encoding) where
  check_size_small :
      (a : Answer) → buf_of a.response.returning ≡ [] → check_size B (answers a) ≢ fails
  unfolding check_size fits_message
  check_size_small a none_there e =
      let small : B.byte_size a.response ≤ 128 =
        subst (λ bs. B.byte_size a.response ≤ length bs + 128) none_there (B.overhead a.response) in
      let fits : ltb (B.byte_size a.response) (rpc_message_max_size + 1) ≡ true = ground arith in
      cc (rw fits at e)

  check_size_iff :
      (a : Answer)
      → (check_size B (answers a) ≡ fails) ↔ (rpc_message_max_size < B.byte_size a.response)
  unfolding check_size fits_message
  check_size_iff a = elim (Bool-cases (ltb (B.byte_size a.response) (rpc_message_max_size + 1))) [
    | inl t ↦ ((λ e. cc (rw t at e)), (λ lt. absurd (no lt t)))
    | inr n ↦ ((λ e. ground arith), (λ lt. rw n refl))
  ]
    where
      no :
          rpc_message_max_size < B.byte_size a.response
          → ltb (B.byte_size a.response) (rpc_message_max_size + 1) ≡ true
          → ⊥
      no lt t = ground arith

  -- Answers without bytes.
  abbrev IsPlain : Calling → Type 0
  IsPlain (recvfrom_call require_addr) = ⊥
  IsPlain _ = Unit

  Returns-buf_of : (c : Calling) (r : Returning) → IsPlain c → Returns c r → buf_of r ≡ []
  Returns-buf_of (socket_call domain type) r p e = rw e refl
  Returns-buf_of (connect_call dest) r p e = absurd e
  Returns-buf_of close_call r p e = rw e refl
  Returns-buf_of (recvfrom_call require_addr) r p e = absurd p
  Returns-buf_of (sendto_call buf addr) r p (n, e) = rw e refl
  Returns-buf_of poll_call r p e = absurd e
  Returns-buf_of select_call r p e = absurd e
  Returns-buf_of getpeername_call r p (a, e) = rw e refl
  Returns-buf_of getsockname_call r p (a, e) = rw e refl
  Returns-buf_of getsockopt_call r p e = rw e refl
  Returns-buf_of setsockopt_call r p e = absurd e
  Returns-buf_of fcntl_call r p e = rw e refl
  Returns-buf_of (atstart_action progname) r p e = rw e refl
  Returns-buf_of calling_not_set r p e = absurd e

  IsTyped-buf_of :
      (ch : Channel) (c : Calling) (resp : Response)
      → IsPlain c
      → IsTyped ch c resp
      → buf_of resp.returning ≡ []
  IsTyped-buf_of ch c resp p (inl (w, e)) = rw e refl
  IsTyped-buf_of ch c resp p (inr (inl (r, e, t))) =
      ap (λ (x : Response). buf_of x.returning) e ∙ Returns-buf_of c r p t
  IsTyped-buf_of ch c resp p (inr (inr (n, e))) = rw e refl

  Result-cases : (r : Result) → (r ≡ fails) ⊎ ((a : Answer) × (r ≡ answers a))
  Result-cases fails = inl refl
  Result-cases (answers a) = inr (a, refl)

  plain_iff :
      (ch : Channel) (d : Daemon) (pid : ℕ) (c : Calling)
      → IsPlain c
      → (on_message B ch d (record { calling = c; pid = pid }) ≡ fails) ↔ Ends ch c
  unfolding on_message check_size
  plain_iff ch d pid c plain =
      let req : Request = record { calling = c; pid = pid } in
      let iff = on_read_ready-fails_iff ch d req in
      (
        (λ e. elim (Result-cases (on_read_ready ch d req)) [
          | inl failed ↦ iff.0 failed
          | inr (a, answered) ↦ absurd (
              check_size_small a
                (IsTyped-buf_of ch c a.response plain (on_read_ready-IsTyped ch d pid c a answered))
                (sym (ap (check_size B) answered) ∙ e))
        ]),
        (λ ended. ap (check_size B) (iff.1 ended)),
      )

  taken_iff :
      (ch : Channel) (d : Daemon) (a : Bool) (s : Socket) (taken : Option (Endpoint × Received))
      → (check_size B (write (recvfrom_with ch d a s taken)) ≡ fails) ↔ (
          (e : Endpoint) × (r : Received) × (taken ≡ some (e, r))
          × (rpc_message_max_size < B.byte_size (recvfrom_response a r)))
  unfolding recvfrom_with write
  taken_iff ch d a s none = (
    (λ h. elim (Bool-cases s.endpoint.nonblocking) [
      | inl t ↦ absurd (check_size_small _ refl (rw t at h))
      | inr n ↦ absurd (check_size_small _ refl (rw n at h))
    ]),
    (λ (e, r, q, lt). absurd (none-ne-some (e, r) q)),
  )
  taken_iff ch d a s (some (e, r)) =
      let answer : Answer = record {
        channel = record ch { socket = some (record s { endpoint = e }) };
        daemon = d;
        actions = [];
        response = recvfrom_response a r;
      } in
      let iff = check_size_iff answer in
      (
        (λ h. (e, r, refl, iff.0 h)),
        (λ (e', r', q, lt).
            let same : r ≡ r' =
              ap (λ (x : Endpoint × Received). x.1) (some-injective (e, r) (e', r') q) in
            iff.1 (
              subst (λ x. rpc_message_max_size < B.byte_size (recvfrom_response a x)) (sym same)
                lt)),
      )

  socket_iff :
      (o : Option Socket) (ch : Channel) (d : Daemon) (a : Bool)
      → (check_size B
            (write (with_socket o λ s. recvfrom_with ch d a s (try_take_from_recv_q s.endpoint)))
          ≡ fails)
        ↔ ((o ≡ none)
            ⊎ ((s : Socket) × (e : Endpoint) × (r : Received) × (o ≡ some s)
                × (try_take_from_recv_q s.endpoint ≡ some (e, r))
                × (rpc_message_max_size < B.byte_size (recvfrom_response a r))))
  unfolding with_socket write check_size
  socket_iff none ch d a = ((λ h. inl refl), (λ h. refl))
  socket_iff (some s) ch d a =
      let iff = taken_iff ch d a s (try_take_from_recv_q s.endpoint) in
      (
        (λ h. let (e, r, taken, lt) = iff.0 h in inr (s, e, r, refl, taken, lt)),
        (λ h. elim h [
          | inl n ↦ absurd (none-ne-some s (sym n))
          | inr (s', e, r, q, taken, lt) ↦ iff.1 (
            e,
            r,
            ap (λ (x : Socket). try_take_from_recv_q x.endpoint) (some-injective s s' q) ∙ taken,
            lt,
          )
        ]),
      )

  of_plain : (P : Type 0) (A : Type 0) → (A ↔ P) → A ↔ (P ⊎ ⊥)
  of_plain P A iff = ((λ a. inl (iff.0 a)), (λ h. elim h [ inl p ↦ iff.1 p | inr e ↦ absurd e ]))

  message_iff :
      (ch : Channel) (d : Daemon) (pid : ℕ) (c : Calling)
      → (on_message B ch d (record { calling = c; pid = pid }) ≡ fails)
        ↔ (Ends ch c ⊎ IsTooLarge B ch c)
  unfolding on_message on_read_ready handle_request handle_calling recvfrom_call_handler
  message_iff ch d pid (recvfrom_call a) = socket_iff ch.socket ch d a
  message_iff ch d pid (socket_call domain type) =
      of_plain _ _ (plain_iff ch d pid (socket_call domain type) tt)
  message_iff ch d pid (connect_call dest) =
      of_plain _ _ (plain_iff ch d pid (connect_call dest) tt)
  message_iff ch d pid close_call = of_plain _ _ (plain_iff ch d pid close_call tt)
  message_iff ch d pid (sendto_call buf addr) =
      of_plain _ _ (plain_iff ch d pid (sendto_call buf addr) tt)
  message_iff ch d pid poll_call = of_plain _ _ (plain_iff ch d pid poll_call tt)
  message_iff ch d pid select_call = of_plain _ _ (plain_iff ch d pid select_call tt)
  message_iff ch d pid getpeername_call = of_plain _ _ (plain_iff ch d pid getpeername_call tt)
  message_iff ch d pid getsockname_call = of_plain _ _ (plain_iff ch d pid getsockname_call tt)
  message_iff ch d pid getsockopt_call = of_plain _ _ (plain_iff ch d pid getsockopt_call tt)
  message_iff ch d pid setsockopt_call = of_plain _ _ (plain_iff ch d pid setsockopt_call tt)
  message_iff ch d pid fcntl_call = of_plain _ _ (plain_iff ch d pid fcntl_call tt)
  message_iff ch d pid (atstart_action progname) =
      of_plain _ _ (plain_iff ch d pid (atstart_action progname) tt)
  message_iff ch d pid calling_not_set = of_plain _ _ (plain_iff ch d pid calling_not_set tt)

  -- A request ends the daemon, by an assertion or a null pointer, exactly when it asks for a socket
  -- that is not an Internet one of stream or datagram type, needs a socket on a channel that has none,
  -- connects a UDP socket, is a poll, select, setsockopt or empty request, or is a receive that finds a packet in the
  -- queue whose answer is longer than a message, 81920 bytes. The size of an answer is that of its bytes and at most
  -- 128 for the rest.
  pub on_message-fails_iff :
      (ch : Channel) (d : Daemon) (req : Request)
      → (on_message B ch d req ≡ fails) ↔ (Ends ch req.calling ⊎ IsTooLarge B ch req.calling)
  on_message-fails_iff ch d req = message_iff ch d req.pid req.calling
