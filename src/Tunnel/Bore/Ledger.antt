-- ===== src/Tunnel/Bore/Ledger.antt =====
-- internal/tunnel/bore.go: what Start and forwardConnection leave open.
use goxfer.Base.{ℕ, ◌∷◌, Option, none, some, Bytes, Text, Result, ok, err}
use goxfer.Base.Triple.{Holds, Triple-bind, Triple-pure, Triple-throw, Triple-on_failure}
use goxfer.Json.{JsonObject}
use goxfer.Net.{Net, close_tcp}
use goxfer.Net.Ledger.{
  Open, Opens, Settles, dial_tcp-Opens, write_tcp-Settles, close_tcp-Open, guarded,
  close_tcp-close_tcp,
}
use goxfer.Tunnel.Bore.{
  ServerJson, ServerMsg, BoreError, connect_failed, hello_failed, local_failed, accept_failed, send,
  received, split_off, recv_server_msg, answered, start, forward_connection, decode_server_msg,
  pipe, take_zero,
}

module _ (J : ServerJson) where
  send-Settles : (e : BoreError) (c : ℕ) (o : JsonObject) → Settles (send J e c o)
  unfolding send
  send-Settles e c o = write_tcp-Settles e c _

  recv_server_msg-Settles : (c : ℕ) → Settles (recv_server_msg J c)
  unfolding recv_server_msg
  recv_server_msg-Settles c os = record { holds = λ n p. go n (take_zero (n.conns c).incoming) p }
    where
      decoded :
          (n : Net) (r : Result BoreError ServerMsg)
          → Open os n
          → Holds (λ _. Open os) (Open os) (received J n r)
      decoded n (ok m) p = p
      decoded n (err e) p = p

      go :
          (n : Net) (s : Option (Bytes × Bytes))
          → Open os n
          → Holds (λ _. Open os) (Open os) (split_off J c n s)
      go n none p = p
      go n (some (bytes, rest)) p = decoded _ (decode_server_msg J bytes) p

  answered-Settles :
      (challenge error : Option Text) (hello : Option ℕ)
      → Settles (answered J challenge error hello)
  answered-Settles (some c) error hello os = Triple-throw _ (λ n p. p)
  answered-Settles none (some e) hello os = Triple-throw _ (λ n p. p)
  answered-Settles none none none os = Triple-throw _ (λ n p. p)
  answered-Settles none none (some port) os = Triple-pure _ (λ n p. p)

  pub start-Opens : Opens (λ r. r.0) (start J)
  unfolding start
  start-Opens os = Triple-bind _ _ (dial_tcp-Opens connect_failed os) (λ c.
      Triple-bind _ _ (guarded c _ (send-Settles hello_failed c _) os) (λ _.
        Triple-bind _ _ (guarded c _ (recv_server_msg-Settles c) os) (λ m.
          Triple-bind _ _ (guarded c _ (answered-Settles m.challenge m.error m.hello) os)
            (λ port. Triple-pure _ (λ n p. p)))))

  pub forward_connection-Settles : (k l : ℕ) (uuid : Text) → Settles (forward_connection J k l uuid)
  unfolding forward_connection pipe
  forward_connection-Settles k l uuid os = Triple-bind _ _ (dial_tcp-Opens connect_failed os) (λ c.
      Triple-bind _ _ (guarded c _ (send-Settles accept_failed c _) os) (λ _.
        Triple-bind _ _
          (Triple-on_failure (close_tcp c) _ (dial_tcp-Opens local_failed (c ∷ os))
            (λ n p. close_tcp-Open c os n p))
          (λ d. record { holds = λ n p. close_tcp-close_tcp c d os _ p })))
