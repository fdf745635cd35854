-- ===== src/Tunnel/Relay.antt =====
-- internal/tunnel/relay.go: the relay's handler, handleRelayConn, as the steps of its goroutines.
-- A connection is a number, and its goroutine stands where its phase says. The map of pending
-- senders is shared under a lock, so each access to it is one step.
pub mod Invariant
pub mod Pairing
use goxfer.Base.{[], ℕ, ◌≡◌, ◌==◌, Bool, true, false, Option, none, some, Text, if◌then◌else◌}
use goxfer.Base.Family.{set}
use goxfer.Base.Dict.{Dict, lookup, insert, erase}

-- `reading`: the first line is still to come. A sender registers its code, is told the code, and
-- waits; a receiver claims a sender, is told so, and is handed over by the sender's channel.
pub data Phase : Type 0 where
  reading : Phase
  registered : Text → Phase
  waiting : Text → Phase
  claiming : ℕ → Phase
  delivered : ℕ → Phase
  bridged : ℕ → Phase
  closed : Phase

-- `pending` has the sender of each code, `channel` what stands in a sender's channel.
pub record Relay : Type 0 where
  pub pending : Dict ℕ
  pub phase : ℕ → Phase
  pub channel : ℕ → Option ℕ

abbrev pub empty_relay : Relay
empty_relay = record { pending = []; phase = λ _. reading; channel = λ _. none }

-- The writes of an acknowledgement may fail, and a sender's waiting may time out, at any time.
pub data Step (s : Relay) : Relay → Type 0 where
  register :
      (c : ℕ) (code : Text)
      → s.phase c ≡ reading
      → Step s
          (record s { pending = insert code c s.pending; phase = set s.phase c (registered code) })
  send_code :
      (c : ℕ) (code : Text)
      → s.phase c ≡ registered code
      → Step s (record s { phase = set s.phase c (waiting code) })
  send_code_failed :
      (c : ℕ) (code : Text)
      → s.phase c ≡ registered code
      → Step s (record s { pending = erase code s.pending; phase = set s.phase c closed })
  time_out :
      (c : ℕ) (code : Text)
      → s.phase c ≡ waiting code
      → Step s (record s { pending = erase code s.pending; phase = set s.phase c closed })
  bridge :
      (c r : ℕ) (code : Text)
      → s.phase c ≡ waiting code
      → s.channel c ≡ some r
      → Step s (record s { phase = set s.phase c (bridged r); channel = set s.channel c none })
  bridge_failed :
      (c r : ℕ) (code : Text)
      → s.phase c ≡ waiting code
      → s.channel c ≡ some r
      → Step s
          (record s { phase = set (set s.phase c closed) r closed; channel = set s.channel c none })
  claim :
      (r c : ℕ) (code : Text)
      → s.phase r ≡ reading
      → lookup code s.pending ≡ some c
      → Step s (record s { pending = erase code s.pending; phase = set s.phase r (claiming c) })
  reject : (r : ℕ) → s.phase r ≡ reading → Step s (record s { phase = set s.phase r closed })
  deliver :
      (r c : ℕ)
      → s.phase r ≡ claiming c
      → Step s
          (record s { phase = set s.phase r (delivered c); channel = set s.channel c (some r) })
  claim_failed :
      (r c : ℕ) → s.phase r ≡ claiming c → Step s (record s { phase = set s.phase r closed })

pub data Reachable : Relay → Type 0 where
  start : Reachable empty_relay
  next : (s t : Relay) → Reachable s → Step s t → Reachable t
