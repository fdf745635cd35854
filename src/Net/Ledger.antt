-- ===== src/Net/Ledger.antt =====
-- What the calls of the net package leave open.
use goxfer.Base.{
  ℕ, ◌≡◌, ◌∙◌, ap, arith, List, [], ◌∷◌, Option, none, some, Bytes, Text, Proc, Outcome, done, fail,
}
use goxfer.Base.Triple.{Triple, Holds, Triple-on_failure, on_failure}
use goxfer.Net.{
  Net, dialled, accepted, bound, with_conn, dial_tcp, accept_tcp, listen_tcp, write_tcp,
  print_command, close_tcp, without,
}
use goxfer.Session.{Conn, SessionError, write_outcome}

abbrev pub Open : List ℕ → Net → Type 0
Open os n = n.opened ≡ os

-- A call that may open one thing more, and does so exactly if it does not fail.
abbrev pub Opens : {E A : Type 0} → (A → ℕ) → Proc Net E A → Type 0
Opens {E} {A} number m = (os : List ℕ) → Triple (Open os) m (λ a. Open (number a ∷ os)) (Open os)

-- A call that opens and closes nothing.
abbrev pub Settles : {E A : Type 0} → Proc Net E A → Type 0
Settles {E} {A} m = (os : List ℕ) → Triple (Open os) m (λ a. Open os) (Open os)

module _ {E : Type 0} (e : E) where
  pub dial_tcp-Opens : Opens (λ c. c) (dial_tcp e)
  unfolding dial_tcp
  dial_tcp-Opens os = record { holds = λ n p. go n n.dials p }
    where
      go :
          (n : Net) (ds : List (Option Conn))
          → Open os n
          → Holds (λ c. Open (c ∷ os)) (Open os) (dialled e n ds)
      go n [] p = p
      go n (none ∷ ds) p = p
      go n (some c ∷ ds) p = ap (λ l. n.next_number ∷ l) p

  pub accept_tcp-Opens : Opens (λ c. c) (accept_tcp e)
  unfolding accept_tcp
  accept_tcp-Opens os = record { holds = λ n p. go n n.accepts p }
    where
      go :
          (n : Net) (cs : List (Option Conn))
          → Open os n
          → Holds (λ c. Open (c ∷ os)) (Open os) (accepted e n cs)
      go n [] p = p
      go n (none ∷ cs) p = p
      go n (some c ∷ cs) p = ap (λ l. n.next_number ∷ l) p

  pub listen_tcp-Opens : Opens (λ l. l.0) (listen_tcp e)
  unfolding listen_tcp
  listen_tcp-Opens os = record { holds = λ n p. go n n.binds p }
    where
      go :
          (n : Net) (ps : List (Option ℕ))
          → Open os n
          → Holds (λ l. Open (l.0 ∷ os)) (Open os) (bound e n ps)
      go n [] p = p
      go n (none ∷ ps) p = p
      go n (some port ∷ ps) p = ap (λ l. n.next_number ∷ l) p

  pub write_tcp-Settles : (c : ℕ) (bytes : Bytes) → Settles (write_tcp e c bytes)
  unfolding write_tcp
  write_tcp-Settles c bytes os = record {
    holds = λ n p. go n (write_outcome bytes (n.conns c) (n.conns c).writes) p;
  }
    where
      go :
          (n : Net) (o : Outcome Conn SessionError (Unit {0}))
          → Open os n
          → Holds (λ _. Open os) (Open os) (with_conn e c n o)
      go n (done x conn) p = p
      go n (fail x conn) p = p

pub print_command-Settles : {E : Type 0} (t : Text) → Settles (print_command {E = E} t)
unfolding print_command
print_command-Settles t os = record { holds = λ n p. p }

without_self : (c : ℕ) (os : List ℕ) → without c (c ∷ os) ≡ os
without_self c os = ground arith

-- Closing the last thing that was opened.
pub close_tcp-Open : (c : ℕ) (os : List ℕ) (n : Net) → Open (c ∷ os) n → Open os (close_tcp c n)
unfolding close_tcp
close_tcp-Open c os n h = ap (without c) h ∙ without_self c os

-- A step between opening a connection and returning it, which closes it when it fails.
pub guarded :
    {E A : Type 0} (c : ℕ) (m : Proc Net E A)
    → Settles m
    → (os : List ℕ)
    → Triple (Open (c ∷ os)) (on_failure (close_tcp c) m) (λ _. Open (c ∷ os)) (Open os)
guarded c m settles os =
    Triple-on_failure (close_tcp c) m (settles (c ∷ os)) (λ n p. close_tcp-Open c os n p)

close_two : (c d : ℕ) (os : List ℕ) → without d (without c (d ∷ c ∷ os)) ≡ os
close_two c d os = ground arith

pub close_tcp-close_tcp :
    (c d : ℕ) (os : List ℕ) (n : Net) → Open (d ∷ c ∷ os) n → Open os (close_tcp d (close_tcp c n))
unfolding close_tcp
close_tcp-close_tcp c d os n h = ap (λ l. without d (without c l)) h ∙ close_two c d os
