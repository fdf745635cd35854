-- ===== src/Net.antt =====
-- TCP as the program uses it: listeners and connections, what was opened and not closed again,
-- and what the coming calls of the net package will do.
pub mod Address
pub mod Ledger
use goxfer.Base.{
  ℕ, ◌+◌, ◌==◌, Bool, true, false, List, [], ◌∷◌, Option, none, some, Bytes, Text, if◌then◌else◌,
  Proc, Outcome, done, fail,
}
use goxfer.Base.Family.{set}
use goxfer.Session.{Conn, SessionError, write_outcome}

-- Listeners and connections are numbers, given out in turn. `dials`, `accepts` and `binds`: the
-- connection, or the port, of each coming call, if it succeeds. `printed`: the commands shown.
-- `cancelled`: the connections whose control loops were told to end, the last one first.
pub record Net : Type 0 where
  pub dials : List (Option Conn)
  pub accepts : List (Option Conn)
  pub binds : List (Option ℕ)
  pub next_number : ℕ
  pub opened : List ℕ
  pub conns : ℕ → Conn
  pub printed : List Text
  pub cancelled : List ℕ

abbrev pub closed_conn : Conn
closed_conn = record { incoming = []; sent = []; writes = [] }

abbrev pub opened_as : Conn → Net → Net
opened_as c n = record n {
  next_number = n.next_number + 1;
  opened = n.next_number ∷ n.opened;
  conns = set n.conns n.next_number c;
}

module _ {E : Type 0} where
  abbrev pub dialled : E → Net → List (Option Conn) → Outcome Net E ℕ
  dialled e n [] = fail e n
  dialled e n (none ∷ ds) = fail e (record n { dials = ds })
  dialled e n (some c ∷ ds) = done n.next_number (record (opened_as c n) { dials = ds })

  -- net.DialTimeout
  unfoldable pub dial_tcp : E → Proc Net E ℕ
  dial_tcp e n = dialled e n n.dials

  abbrev pub accepted : E → Net → List (Option Conn) → Outcome Net E ℕ
  accepted e n [] = fail e n
  accepted e n (none ∷ cs) = fail e (record n { accepts = cs })
  accepted e n (some c ∷ cs) = done n.next_number (record (opened_as c n) { accepts = cs })

  -- net.Listener.Accept
  unfoldable pub accept_tcp : E → Proc Net E ℕ
  accept_tcp e n = accepted e n n.accepts

  abbrev pub bound : E → Net → List (Option ℕ) → Outcome Net E (ℕ × ℕ)
  bound e n [] = fail e n
  bound e n (none ∷ ps) = fail e (record n { binds = ps })
  bound e n (some port ∷ ps) =
      done (n.next_number, port) (record (opened_as closed_conn n) { binds = ps })

  -- net.Listen: the listener and its port.
  unfoldable pub listen_tcp : E → Proc Net E (ℕ × ℕ)
  listen_tcp e n = bound e n n.binds

  abbrev pub with_conn :
      E → ℕ → Net → Outcome Conn SessionError (Unit {0}) → Outcome Net E (Unit {0})
  with_conn e c n (done x conn) = done x (record n { conns = set n.conns c conn })
  with_conn e c n (fail x conn) = fail e (record n { conns = set n.conns c conn })

  unfoldable pub write_tcp : E → ℕ → Bytes → Proc Net E (Unit {0})
  write_tcp e c bytes n = with_conn e c n (write_outcome bytes (n.conns c) (n.conns c).writes)

  unfoldable pub print_command : Text → Proc Net E (Unit {0})
  print_command t n = done tt (record n { printed = t ∷ n.printed })

abbrev pub without : ℕ → List ℕ → List ℕ
without c [] = []
without c (d ∷ ds) = let rest = without c ds in if d == c then ds else d ∷ rest

-- Close of a listener or a connection.
unfoldable pub close_tcp : ℕ → Net → Net
close_tcp c n = record n { opened = without c n.opened }

-- The cancel function of a context: the control loop that has this connection closes it when it
-- finds its context done, which may be after the caller has returned.
unfoldable pub cancel_loop : ℕ → Net → Net
cancel_loop c n = record n { cancelled = c ∷ n.cancelled }
