-- ===== src/Stack/Sockets.antt =====
-- src/veloxd/arbiter/Endpoint.cpp in the stack: the Endpoint of a socket that a turn of the loop has changed.
use velox_project.Prelude.{ℕ, ◌≡◌, ap, ==_self, if◌then◌else◌}
use velox_project.Endpoint.{Endpoint}
use velox_project.Stack.{at}

pub at_self : (f : ℕ → Endpoint) (i : ℕ) (e : Endpoint) → at f i e i ≡ e
at_self f i e = ap (λ b. if b then e else f i) (==_self i)
