-- ===== src/Tunnel/Relay/Pairing.antt =====
-- internal/tunnel/relay.go: a sender is paired with at most one receiver.
use goxfer.Base.{ℕ, ◌≡◌, ◌≢◌, refl, ap, ◌∙◌, Option, none, some, Text, text_eq_iff, arith}
use goxfer.Base.Family.{set}
use goxfer.Base.Dict.{Dict, lookup, erase, lookup-erase}
use goxfer.Tunnel.Relay.{
  Phase, reading, waiting, bridged, closed, Relay, Step, Reachable, register, send_code,
  send_code_failed, time_out, bridge, bridge_failed, claim, reject, deliver, claim_failed, start,
  next,
}
use goxfer.Tunnel.Relay.Invariant.{
  holds, has_code, Inv, move-Inv, clear-Inv, register-Inv, claim-Inv, deliver-Inv,
}

-- A sender gives up, and its code with it.
leave-Inv :
    (p : Dict ℕ) (f : ℕ → Phase) (ch : ℕ → Option ℕ) (c : ℕ) (code : Text)
    → Inv p f ch
    → has_code (f c) ≡ some code
    → Inv (erase code p) (set f c closed) ch
leave-Inv p f ch c code inv h =
    move-Inv p (erase code p) f ch c closed inv (λ k d e. ground (arith, lookup-erase code k p))
      (λ e. cc) refl (λ d e. ground (arith, inv.full d c e))
      (λ k e. absurd (ground (arith, lookup-erase code k p, text_eq_iff code k, inv.owned k c)))

-- A connection that is neither a sender nor handed over goes.
close-Inv :
    (p : Dict ℕ) (f : ℕ → Phase) (ch : ℕ → Option ℕ) (c : ℕ)
    → Inv p f ch
    → has_code (f c) ≡ none
    → ((d : ℕ) → ch d ≢ some c)
    → Inv p (set f c closed) ch
close-Inv p f ch c inv h alone =
    move-Inv p p f ch c closed inv (λ k d e. e) (λ e. cc) refl alone
      (λ k e. absurd (ground (arith, inv.owned k c e)))

-- The sender `c` takes the receiver `r` out of its channel, and goes on or closes.
take-Inv :
    (p : Dict ℕ) (f : ℕ → Phase) (ch : ℕ → Option ℕ) (c r : ℕ) (code : Text) (a : Phase)
    → Inv p f ch
    → f c ≡ waiting code
    → ch c ≡ some r
    → a ≢ reading
    → holds a ≡ none
    → Inv p (set f c a) (set ch c none)
unfolding set
take-Inv p f ch c r code a inv h there other empty =
    move-Inv p p f (set ch c none) c a (clear-Inv p f ch c inv) (λ k d e. e) other empty
      (λ d e. ground (arith, inv.full d c))
      (λ k e. absurd (inv.free r c k (ap holds (inv.full c r there)) e))

drop-Inv :
    (p : Dict ℕ) (f : ℕ → Phase) (ch : ℕ → Option ℕ) (c r : ℕ) (code : Text)
    → Inv p f ch
    → f c ≡ waiting code
    → ch c ≡ some r
    → Inv p (set (set f c closed) r closed) (set ch c none)
unfolding set
drop-Inv p f ch c r code inv h there =
    close-Inv p (set f c closed) (set ch c none) r
      (take-Inv p f ch c r code closed inv h there (λ e. cc) refl)
      (ground (arith, inv.full c r there)) (λ d e. ground (arith, inv.full d r, inv.full c r there))

Step-Inv :
    (s t : Relay) → Inv s.pending s.phase s.channel → Step s t → Inv t.pending t.phase t.channel
Step-Inv s t inv (register c code h) = register-Inv s.pending s.phase s.channel c code inv h
Step-Inv s t inv (send_code c code h) =
    move-Inv s.pending s.pending s.phase s.channel c (waiting code) inv (λ k d e. e) (λ e. cc) refl
      (λ d e. cc (inv.full d c e ∙ refl)) (λ k e. ground (arith, inv.owned k c e))
Step-Inv s t inv (send_code_failed c code h) =
    leave-Inv s.pending s.phase s.channel c code inv (ap has_code h)
Step-Inv s t inv (time_out c code h) =
    leave-Inv s.pending s.phase s.channel c code inv (ap has_code h)
Step-Inv s t inv (bridge c r code h full) =
    take-Inv s.pending s.phase s.channel c r code (bridged r) inv h full (λ e. cc) refl
Step-Inv s t inv (bridge_failed c r code h full) =
    drop-Inv s.pending s.phase s.channel c r code inv h full
Step-Inv s t inv (claim r c code h found) =
    claim-Inv s.pending s.phase s.channel r c code inv h found
Step-Inv s t inv (reject r h) =
    close-Inv s.pending s.phase s.channel r inv (ap has_code h)
      (λ d e. ground (arith, inv.full d r e))
Step-Inv s t inv (deliver r c h) = deliver-Inv s.pending s.phase s.channel r c inv h
Step-Inv s t inv (claim_failed r c h) =
    close-Inv s.pending s.phase s.channel r inv (ap has_code h)
      (λ d e. ground (arith, inv.full d r e))

Reachable-Inv : (s : Relay) → Reachable s → Inv s.pending s.phase s.channel
unfolding lookup
Reachable-Inv _ start = record {
  owned = λ k c e. cc;
  free = λ r c k e. cc;
  begun = λ r c e. cc;
  one = λ r r' c e. cc;
  full = λ c r e. cc;
}
Reachable-Inv _ (next s t reached step) = Step-Inv s t (Reachable-Inv s reached) step

-- In every state that the relay's goroutines can reach, in any order of their steps and whatever
-- writes fail or time out, two receivers that have claimed the same sender, or stand in its
-- channel, are one.
pub Reachable-paired_once :
    (s : Relay) (r r' c : ℕ)
    → Reachable s
    → holds (s.phase r) ≡ some c
    → holds (s.phase r') ≡ some c
    → r ≡ r'
Reachable-paired_once s r r' c reached h h' = (Reachable-Inv s reached).one r r' c h h'
