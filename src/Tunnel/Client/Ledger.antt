-- ===== src/Tunnel/Client/Ledger.antt =====
-- internal/tunnel/relay.go: what the clients leave open.
use goxfer.Base.{ℕ, Option, none, some, Bytes, Text, is_empty, guard}
use goxfer.Base.Triple.{Holds, Triple-bind, Triple-pure, Triple-guard}
use goxfer.Json.{JsonObject, JsonText}
use goxfer.Net.{Net}
use goxfer.Net.Ledger.{Open, Opens, Settles, dial_tcp-Opens, write_tcp-Settles, guarded}
use goxfer.Tunnel.Client.{
  RelayAck, RelayError, connect_failed, send_failed, receive_failed, wait_failed, refused, zero_ack,
  set_ack_field, take_line, relay_write, relay_read, read_ack, line_read, with_value, fields_of,
  connect_as_sender, wait_for_receiver, connect_as_receiver,
}

module _ (J : JsonText) where
  relay_write-Settles : (e : RelayError) (c : ℕ) (o : JsonObject) → Settles (relay_write J e c o)
  unfolding relay_write
  relay_write-Settles e c o = write_tcp-Settles e c _

  read_ack-Settles : (e : RelayError) (c : ℕ) → Settles (read_ack J e c)
  unfolding relay_read
  read_ack-Settles e c os = record { holds = λ n p. go n (take_line (n.conns c).incoming) p }
    where
      valued :
          (n : Net) (v : Option RelayAck)
          → Open os n
          → Holds (λ _. Open os) (Open os) (with_value e n v)
      valued n none p = p
      valued n (some a) p = p

      go :
          (n : Net) (line : Option (Bytes × Bytes))
          → Open os n
          → Holds (λ _. Open os) (Open os) (line_read J set_ack_field zero_ack e c n line)
      go n none p = p
      go n (some (line, rest)) p = valued _ (fields_of J set_ack_field zero_ack (J.parse line)) p

  guard-Settles : (ack : RelayAck) → Settles (guard (is_empty ack.error) (refused ack.error))
  guard-Settles ack os = Triple-guard (is_empty ack.error) (refused ack.error) (λ n p. p)

  pub connect_as_sender-Opens : Opens (λ r. r.0) (connect_as_sender J)
  unfolding connect_as_sender
  connect_as_sender-Opens os = Triple-bind _ _ (dial_tcp-Opens connect_failed os) (λ c.
      Triple-bind _ _ (guarded c _ (relay_write-Settles send_failed c _) os) (λ _.
        Triple-bind _ _ (guarded c _ (read_ack-Settles receive_failed c) os) (λ ack.
          Triple-bind _ _ (guarded c _ (guard-Settles ack) os) (λ _. Triple-pure _ (λ n p. p)))))

  pub connect_as_receiver-Opens : (code : Text) → Opens (λ c. c) (connect_as_receiver J code)
  unfolding connect_as_receiver
  connect_as_receiver-Opens code os = Triple-bind _ _ (dial_tcp-Opens connect_failed os) (λ c.
      Triple-bind _ _ (guarded c _ (relay_write-Settles send_failed c _) os) (λ _.
        Triple-bind _ _ (guarded c _ (read_ack-Settles receive_failed c) os) (λ ack.
          Triple-bind _ _ (guarded c _ (guard-Settles ack) os) (λ _. Triple-pure _ (λ n p. p)))))

  pub wait_for_receiver-Settles : (c : ℕ) → Settles (wait_for_receiver J c)
  unfolding wait_for_receiver
  wait_for_receiver-Settles c os =
      Triple-bind _ _ (read_ack-Settles wait_failed c os) (λ ack. guard-Settles ack os)
