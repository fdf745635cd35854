-- ===== src/Setup/Left.antt =====
-- internal/transfer/p2p.go: what a call may leave open, and the steps that the modes share.
use goxfer.Base.{
  ℕ, ◌≡◌, refl, ap, ◌∙◌, arith, [], ◌∷◌, List, Option, none, some, Text, Outcome, done, fail,
  finally, ◌⊎◌,
}
use goxfer.Base.Triple.{Triple, Holds, Triple-bind, Triple-finally}
use goxfer.Net.{Net, close_tcp, cancel_loop, without}
use goxfer.Net.Address.{split_host_port}
use goxfer.Net.Ledger.{Open, Opens, Settles, close_tcp-Open}
use goxfer.Session.Connect.{bind, bind-Opens}
use goxfer.Setup.{SetupError, SetupProc, session_failed, wrap, listening_on, bind_direct_listener}

-- Wrapping an error changes nothing else.
pub Triple-wrap :
    {E A : Type 0} {P : Net → Type 0} {Q : A → Net → Type 0} {R : Net → Type 0} (f : E → SetupError)
    (m : Net → Outcome Net E A)
    → Triple P m Q R
    → Triple P (wrap f m) Q R
Triple-wrap {E} {A} {P} {Q} {R} f m tm = record { holds = λ n p. go (m n) (tm.holds n p) }
  where
    go :
        (o : Outcome Net E A)
        → Holds Q R o
        → Holds Q R (elim o [ done a t ↦ done a t | fail e t ↦ fail (f e) t ])
    go (done a t) h = h
    go (fail e t) h = h

-- Something opened, used, and closed in the end.
pub closed_after :
    {A : Type 0} (c : ℕ) (m : SetupProc A)
    → Settles m
    → (os : List ℕ) → Triple (Open (c ∷ os)) (finally (close_tcp c) m) (λ _. Open os) (Open os)
closed_after c m settles os =
    Triple-finally (close_tcp c) m (settles (c ∷ os)) (λ a n p. close_tcp-Open c os n p)
      (λ n p. close_tcp-Open c os n p)

pub bind_direct_listener-Opens : (addr : Text) → Opens (λ l. l.0) (bind_direct_listener addr)
unfolding bind_direct_listener
bind_direct_listener-Opens addr os =
    Triple-bind _ _ (Triple-wrap session_failed bind (bind-Opens os))
      (λ l. listened l.0 l.1 (split_host_port addr))
  where
    listened :
        (l port : ℕ) (s : Option (Text × Text))
        → Triple (Open (l ∷ os)) (listening_on (l, port) s) (λ r. Open (r.0 ∷ os)) (Open os)
    listened l port none = record { holds = λ n p. close_tcp-Open l os n p }
    listened l port (some (host, asked)) = record { holds = λ n p. p }

-- Nothing more is open than before, or one connection.
abbrev pub OneLeft : List ℕ → Net → Type 0
OneLeft os n = Open os n ⊎ ((c : ℕ) × Open (c ∷ os) n)

-- One connection more is open than before, whose control loop has been told to end.
abbrev pub Handed : List ℕ → Net → Type 0
Handed os n = (c : ℕ) × Open (c ∷ os) n × ((before : List ℕ) × (n.cancelled ≡ c ∷ before))

-- What a success leaves open, for the address of the relay and the address to listen on.
abbrev pub Leaves : Text → Text → List ℕ → Net → Type 0
Leaves relay_addr (l ∷ listen_addr) os n = Open os n
Leaves (r ∷ relay_addr) [] os n = Open os n
Leaves [] [] os n = Handed os n

-- What a failure leaves open.
abbrev pub LeavesFailed : Text → Text → List ℕ → Net → Type 0
LeavesFailed relay_addr (l ∷ listen_addr) os n = Open os n
LeavesFailed (r ∷ relay_addr) [] os n = OneLeft os n
LeavesFailed [] [] os n = Open os n ⊎ Handed os n

pub cancel_loop-Handed :
    (c : ℕ) (os : List ℕ) (n : Net) → Open (c ∷ os) n → Handed os (cancel_loop c n)
unfolding cancel_loop
cancel_loop-Handed c os n h = (c, h, (n.cancelled, refl))

without_behind : (l c : ℕ) (os : List ℕ) → without l (c ∷ l ∷ os) ≡ c ∷ os
without_behind l c os = ground arith

-- Closing the listener that was opened before the connection.
pub close_tcp-Handed :
    (l : ℕ) (os : List ℕ) (n : Net) → Handed (l ∷ os) n → Handed os (close_tcp l n)
unfolding close_tcp
close_tcp-Handed l os n (c, h, k) = (c, ap (without l) h ∙ without_behind l c os, k)
