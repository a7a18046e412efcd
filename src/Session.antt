-- ===== src/Session.antt =====
-- src/veloxd/Session.h, src/veloxd/Session.cpp, and the port counters of tcp/TcpSession.cpp and
-- udp/UdpSession.cpp. Addresses and ports are the `__be32` and `__be16` values as the host reads
-- them; 0 is the wildcard, `INADDR_ANY` or no port.
pub mod Find
pub mod Ports
use velox_project.Prelude.{
  ℕ, ◌+◌, ◌%◌, ◌^◌, ◌&&◌, Bool, Option, none, some, List, [], ◌∷◌, ltb, ◌==◌, if◌then◌else◌, u16,
  swap16,
}

-- The four fields that name a connection. The weak pointer to the Endpoint is a part of the store
-- that holds the sessions.
pub record Session : Type 0 where
  pub faddr : ℕ
  pub fport : ℕ
  pub laddr : ℕ
  pub lport : ℕ

-- The constructor; `addr` is the configured stack address.
unfoldable pub new_session : ℕ → Session
new_session addr = record { faddr = 0; fport = 0; laddr = addr; lport = 0 }

-- `static uint16_t port`: the new counter and the port in network order.
unfoldable pub next_avail_port : ℕ → ℕ × ℕ
next_avail_port port = let port' = u16 (port + 1) in (port', swap16 port')

-- A session beside the port counter of its protocol.
pub record Bound : Type 0 where
  pub session : Session
  pub port : ℕ

unfoldable pub bind : Session → ℕ → Bound
unfolding next_avail_port
bind s port =
    if s.lport == 0
    then (let (port', be) = next_avail_port port in
        record { session = record s { lport = be }; port = port' })
    else record { session = s; port = port }

-- `Session::connect`.
unfoldable pub connect : Session → ℕ → ℕ → ℕ → Bound
unfolding bind
connect s faddr fport port =
    let s' = record s { faddr = faddr; fport = fport } in
    if s.lport == 0 then bind s' port else record { session = s'; port = port }

unfoldable pub disconnect : Session → Session
disconnect s = record s { faddr = 0; fport = 0 }

abbrev pub enotconn : ℕ
enotconn = 107

abbrev pub eisconn : ℕ
eisconn = 106

-- `Session::send(buf)`: binds, and returns an error number that its callers drop.
unfoldable pub send : Session → ℕ → Bound × ℕ
unfolding bind
send s port =
    let b = if s.lport == 0 then bind s port else record { session = s; port = port } in
    (b, if s.fport == 0 then enotconn else 0)

-- `Session::send(faddr, fport, buf)`. The test reads the parameter `fport`, which hides the field.
unfoldable pub send_to : Session → ℕ → ℕ → Bound × ℕ
unfolding bind
send_to s fport port =
    let b = if s.lport == 0 then bind s port else record { session = s; port = port } in
    (b, if fport == 0 then 0 else eisconn)

-- `in_addr_match`: 0 and 1 are the scores, `none` is -1.
pub in_addr_match : ℕ → ℕ → Option ℕ
in_addr_match ours theirs = if ours == 0 then some 0 else if ours == theirs then some 1 else none

-- The address part of the loop's body, with what the ports have scored.
pub address_score : ℕ → ℕ → Session → ℕ → Option ℕ
unfolding in_addr_match
address_score faddr laddr curr accum = elim (in_addr_match curr.faddr faddr) [
  | none ↦ none
  | some f ↦ elim (in_addr_match curr.laddr laddr) [ none ↦ none | some l ↦ some (accum + f + l) ]
]

-- The body of the loop up to the comparison; `none` is a `continue`.
pub score : ℕ → ℕ → ℕ → ℕ → Session → Option ℕ
unfolding address_score
score faddr fport laddr lport curr =
    if curr.lport == lport
    then (if curr.fport == 0
        then address_score faddr laddr curr 1
        else if curr.fport == fport
        then address_score faddr laddr curr 2
        else none)
    else none

-- The packet that is looked up: its source, its destination.
pub record Flow : Type 0 where
  pub faddr : ℕ
  pub fport : ℕ
  pub laddr : ℕ
  pub lport : ℕ

-- A weak pointer that may have expired: `lock` gives the live session.
unfoldable pub candidate : (ℕ → Option Session) → Flow → ℕ → Option ℕ
unfolding score
candidate lock f i = elim (lock i) [
  | none ↦ none
  | some curr ↦ score f.faddr f.fport f.laddr f.lport curr
]

-- `pcb` and `best_score`; `none` is the null pointer with the score -1.
abbrev pub Best : Type 0
Best = Option (ℕ × ℕ)

pub consider : Best → ℕ → Option ℕ → Best
consider best i none = best
consider none i (some accum) = some (i, accum)
consider (some (pcb, best_score)) i (some accum) =
    if ltb best_score accum then some (i, accum) else some (pcb, best_score)

pub find_loop : (ℕ → Option Session) → Flow → Best → List ℕ → Best
unfolding candidate consider
find_loop lock f best [] = best
find_loop lock f best (i ∷ pcbs) = find_loop lock f (consider best i (candidate lock f i)) pcbs

-- `Sessions::find`: the list of weak pointers is searched from its front.
unfoldable pub find : (ℕ → Option Session) → Flow → List ℕ → Option ℕ
unfolding find_loop
find lock f pcbs = elim (find_loop lock f none pcbs) [ none ↦ none | some (pcb, n) ↦ some pcb ]
