-- ===== src/Tunnel/Client/Lines.antt =====
-- internal/tunnel/relay.go: a line is read back as the value that was written, and nothing behind
-- it is taken from the connection.
use goxfer.Base.{
  ℕ, ◌≡◌, refl, sym, ap, ◌∙◌, arith, Bool, true, false, List, [], ◌∷◌, ◌++◌, append_assoc, Option,
  none, some, Bytes, Text, text_eq, ◌==◌, if◌then◌else◌, Outcome, done,
}
use goxfer.Base.Family.{set}
use goxfer.Json.{JsonText, Json, JsonObject, is_utf8_object, names_field, set_fields}
use goxfer.Net.{Net, write_tcp, with_conn}
use goxfer.Session.{Conn, write_outcome}
use goxfer.Tunnel.Client.{
  RelayHandshake, RelayAck, zero_handshake, zero_ack, handshake_object, ack_object,
  set_handshake_field, set_ack_field, newline, take_line, RelayError, relay_write, relay_read,
  line_read, with_value, fields_of,
}

abbrev pub no_newline : Bytes → Bool
no_newline [] = true
no_newline (b ∷ bs) = if b == newline then false else no_newline bs

take_line-append :
    (line rest : Bytes)
    → no_newline line ≡ true
    → take_line (line ++ (newline ∷ rest)) ≡ some (line, rest)
take_line-append [] rest h = refl
take_line-append (b ∷ line) rest h = ground (arith, take_line-append line rest)

handshake_fields :
    (role code : Text)
    → set_fields set_handshake_field
        (handshake_object (record { role = role; code = code }))
        zero_handshake
      ≡ some (record { role = role; code = code })
unfolding set_fields names_field text_eq
handshake_fields role [] = refl
handshake_fields role (c ∷ code) = refl

ack_fields :
    (code error : Text) (accepted : Bool)
    → set_fields set_ack_field
        (ack_object (record { code = code; accepted = accepted; error = error }))
        zero_ack
      ≡ some (record { code = code; accepted = accepted; error = error })
unfolding set_fields names_field text_eq
ack_fields [] [] false = refl
ack_fields [] [] true = refl
ack_fields [] (e ∷ error) false = refl
ack_fields [] (e ∷ error) true = refl
ack_fields (c ∷ code) [] false = refl
ack_fields (c ∷ code) [] true = refl
ack_fields (c ∷ code) (e ∷ error) false = refl
ack_fields (c ∷ code) (e ∷ error) true = refl

-- The bytes of `c` up to `rest` are read.
abbrev pub advanced : ℕ → Bytes → Net → Net
advanced c rest m = record m { conns = set m.conns c (record (m.conns c) { incoming = rest }) }

-- What a line does that was written for `o`: any connection that holds it gives `a`, and keeps the rest.
pub record Line {A : Type 0} (read : ℕ → Net → Outcome Net RelayError A) (a : A) (c : ℕ) (n t : Net)
    : Type 0 where
  pub bytes : Bytes
  pub sent : (t.conns c).sent ≡ (n.conns c).sent ++ bytes
  pub received :
      (d : ℕ) (m : Net) (rest : Bytes)
      → (m.conns d).incoming ≡ bytes ++ rest
      → read d m ≡ done a (advanced d rest m)

set_at : {A : Type 0} (f : ℕ → A) (c : ℕ) (a : A) → set f c a c ≡ a
unfolding set
set_at f c a = ground arith

module _ (J : JsonText) where
  write_sent :
      (e : RelayError) (c : ℕ) (bytes : Bytes) (n t : Net)
      → write_tcp e c bytes n ≡ done tt t
      → (t.conns c).sent ≡ (n.conns c).sent ++ bytes
  unfolding write_tcp write_outcome
  write_sent e c bytes n t h = go (n.conns c).writes h
    where
      stored :
          (conn : Conn)
          → conn.sent ≡ (n.conns c).sent ++ bytes
          → with_conn e c n (done tt conn) ≡ done tt t
          → (t.conns c).sent ≡ (n.conns c).sent ++ bytes
      stored conn k h =
          let same : record n { conns = set n.conns c conn } ≡ t = cc h in
          sym (ap (λ (u : Net). (u.conns c).sent) same)
          ∙ ap (λ (u : Conn). u.sent) (set_at n.conns c conn)
          ∙ k

      go :
          (ws : List (Option ℕ))
          → with_conn e c n (write_outcome bytes (n.conns c) ws) ≡ done tt t
          → (t.conns c).sent ≡ (n.conns c).sent ++ bytes
      go [] h = stored (record (n.conns c) { sent = (n.conns c).sent ++ bytes }) refl h
      go (none ∷ ws) h =
          stored (record (n.conns c) { sent = (n.conns c).sent ++ bytes; writes = ws }) refl h
      go (some k ∷ ws) h = cc h

  read_line :
      {A : Type 0} (set_field : Text → Json → A → Option A) (zero a : A) (o : JsonObject)
      → is_utf8_object o ≡ true
      → no_newline (J.print o) ≡ true
      → set_fields set_field o zero ≡ some a
      → (e : RelayError) (d : ℕ) (m : Net) (rest : Bytes)
      → (m.conns d).incoming ≡ (J.print o ++ (newline ∷ [])) ++ rest
      → relay_read J set_field zero e d m ≡ done a (advanced d rest m)
  unfolding relay_read
  read_line set_field zero a o utf8 flat fields e d m rest h =
      let shape = h ∙ append_assoc (J.print o) (newline ∷ []) rest in
      let line = ap take_line shape ∙ take_line-append (J.print o) rest flat in
      ap (line_read J set_field zero e d m) line
      ∙ ap (λ x. with_value e (advanced d rest m) (fields_of J set_field zero x))
          (J.parse-print o utf8)
      ∙ ap (with_value e (advanced d rest m)) fields

  write-Line :
      {A : Type 0} (set_field : Text → Json → A → Option A) (zero a : A) (o : JsonObject)
      → is_utf8_object o ≡ true
      → no_newline (J.print o) ≡ true
      → set_fields set_field o zero ≡ some a
      → (e e' : RelayError) (c : ℕ) (n t : Net) → relay_write J e c o n ≡ done tt t
      → Line (relay_read J set_field zero e') a c n t
  unfolding relay_write
  write-Line set_field zero a o utf8 flat fields e e' c n t h = record {
    bytes = J.print o ++ (newline ∷ []);
    sent = write_sent e c (J.print o ++ (newline ∷ [])) n t h;
    received = λ d m rest k. read_line set_field zero a o utf8 flat fields e' d m rest k;
  }

  -- A handshake or an acknowledgement whose line was written without an error is read as it was
  -- from every connection that holds the line, and the bytes behind the line stay unread; for
  -- texts in UTF-8 and a JSON printer that writes no newline.
  pub relay_write-relay_read :
      (h : RelayHandshake) (a : RelayAck) (e e' : RelayError) (c d : ℕ) (n t m u : Net)
      → is_utf8_object (handshake_object h) ≡ true
      → no_newline (J.print (handshake_object h)) ≡ true
      → is_utf8_object (ack_object a) ≡ true
      → no_newline (J.print (ack_object a)) ≡ true
      → relay_write J e c (handshake_object h) n ≡ done tt t
      → relay_write J e d (ack_object a) m ≡ done tt u
      → Line (relay_read J set_handshake_field zero_handshake e') h c n t
        × Line (relay_read J set_ack_field zero_ack e') a d m u
  relay_write-relay_read h a e e' c d n t m u utf8 flat utf8' flat' w w' = (
    write-Line set_handshake_field zero_handshake h (handshake_object h) utf8 flat
        (handshake_fields h.role h.code) e e' c n t w,
    write-Line set_ack_field zero_ack a (ack_object a) utf8' flat'
        (ack_fields a.code a.error a.accepted) e e' d m u w',
  )
