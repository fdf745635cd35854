-- ===== src/Tunnel/Client.antt =====
-- internal/tunnel/relay.go: the lines that the relay and its clients exchange, and the clients,
-- ConnectAsSender, WaitForReceiver and ConnectAsReceiver.
pub mod Lines
pub mod Ledger
use goxfer.Base.{
  ℕ, ◌%◌, Bool, true, false, not, List, [], ◌∷◌, ◌++◌, Option, none, some, Bytes, Text, codes,
  is_empty, ◌==◌, if◌then◌else◌, Proc, Outcome, done, fail, pure, throw, guard, ◌>>=◌, ◌>>◌,
}
use goxfer.Base.Family.{set}
use goxfer.Base.Triple.{on_failure}
use goxfer.Json.{
  Json, JsonObject, JsonText, text, names_field, read_text, read_bool, omit_empty, omit_false,
  set_fields,
}
use goxfer.Session.{Conn}
use goxfer.Net.{Net, dial_tcp, write_tcp, close_tcp}

pub record RelayHandshake : Type 0 where
  pub role : Text
  pub code : Text

pub record RelayAck : Type 0 where
  pub code : Text
  pub accepted : Bool
  pub error : Text

abbrev pub zero_handshake : RelayHandshake
zero_handshake = record { role = []; code = [] }

abbrev pub zero_ack : RelayAck
zero_ack = record { code = []; accepted = false; error = [] }

abbrev pub handshake_object : RelayHandshake → JsonObject
handshake_object h = (codes "role", text h.role) ∷ omit_empty (codes "code") h.code

abbrev pub ack_object : RelayAck → JsonObject
ack_object a =
    omit_empty (codes "code") a.code
    ++ (omit_false (codes "ok") a.accepted ++ omit_empty (codes "error") a.error)

abbrev set_role : RelayHandshake → Option Text → Option RelayHandshake
set_role h none = none
set_role h (some t) = some (record h { role = t })

abbrev set_handshake_code : RelayHandshake → Option Text → Option RelayHandshake
set_handshake_code h none = none
set_handshake_code h (some t) = some (record h { code = t })

abbrev pub set_handshake_field : Text → Json → RelayHandshake → Option RelayHandshake
set_handshake_field k v h =
    if names_field k (codes "role")
    then set_role h (read_text v h.role)
    else if names_field k (codes "code")
    then set_handshake_code h (read_text v h.code)
    else some h

abbrev set_ack_code : RelayAck → Option Text → Option RelayAck
set_ack_code a none = none
set_ack_code a (some t) = some (record a { code = t })

abbrev set_accepted : RelayAck → Option Bool → Option RelayAck
set_accepted a none = none
set_accepted a (some b) = some (record a { accepted = b })

abbrev set_error : RelayAck → Option Text → Option RelayAck
set_error a none = none
set_error a (some t) = some (record a { error = t })

abbrev pub set_ack_field : Text → Json → RelayAck → Option RelayAck
set_ack_field k v a =
    if names_field k (codes "code")
    then set_ack_code a (read_text v a.code)
    else if names_field k (codes "ok")
    then set_accepted a (read_bool v a.accepted)
    else if names_field k (codes "error")
    then set_error a (read_text v a.error)
    else some a

abbrev pub newline : ℕ
newline = 10

-- The bytes before the first newline, and those behind it.
abbrev pub take_line : Bytes → Option (Bytes × Bytes)
take_line [] = none
take_line (b ∷ bs) =
    let rest = take_line bs in
    if b == newline
    then some ([], bs)
    else elim rest [ none ↦ none | some (line, behind) ↦ some (b ∷ line, behind) ]

-- How a client fails: the calls by name, and the relay's own word.
pub data RelayError : Type 0 where
  connect_failed send_failed receive_failed wait_failed : RelayError
  refused : Text → RelayError

abbrev pub RelayProc : Type 0 → Type 0
RelayProc A = Proc Net RelayError A

abbrev pub with_value : {A : Type 0} → RelayError → Net → Option A → Outcome Net RelayError A
with_value e n none = fail e n
with_value e n (some a) = done a n

module _ (J : JsonText) where
  unfoldable pub relay_write : RelayError → ℕ → JsonObject → RelayProc (Unit {0})
  relay_write e c object = write_tcp e c (J.print object ++ (newline ∷ []))

  abbrev pub fields_of :
      {A : Type 0} → (Text → Json → A → Option A) → A → Option JsonObject → Option A
  fields_of set_field zero none = none
  fields_of set_field zero (some o) = set_fields set_field o zero

  abbrev pub line_read :
      {A : Type 0}
      → (Text → Json → A → Option A)
      → A
      → RelayError
      → ℕ
      → Net
      → Option (Bytes × Bytes)
      → Outcome Net RelayError A
  line_read set_field zero e c n none =
      fail e (record n { conns = set n.conns c (record (n.conns c) { incoming = [] }) })
  line_read set_field zero e c n (some (line, rest)) =
      with_value e (record n { conns = set n.conns c (record (n.conns c) { incoming = rest }) })
        (fields_of set_field zero (J.parse line))

  -- Byte by byte up to the newline; what a struct starts from is `zero`.
  unfoldable pub relay_read :
      {A : Type 0} → (Text → Json → A → Option A) → A → RelayError → ℕ → RelayProc A
  relay_read set_field zero e c n = line_read set_field zero e c n (take_line (n.conns c).incoming)

  abbrev pub read_ack : RelayError → ℕ → RelayProc RelayAck
  read_ack e c = relay_read set_ack_field zero_ack e c

  unfoldable pub connect_as_sender : RelayProc (ℕ × Text)
  connect_as_sender = do
    c ← dial_tcp connect_failed
    on_failure (close_tcp c)
        (relay_write send_failed c (handshake_object (record { role = codes "sender"; code = [] })))
    ack ← on_failure (close_tcp c) (read_ack receive_failed c)
    on_failure (close_tcp c) (guard (is_empty ack.error) (refused ack.error))
    pure (c, ack.code)

  unfoldable pub wait_for_receiver : ℕ → RelayProc (Unit {0})
  wait_for_receiver c = do
    ack ← read_ack wait_failed c
    guard (is_empty ack.error) (refused ack.error)

  unfoldable pub connect_as_receiver : Text → RelayProc ℕ
  connect_as_receiver code = do
    c ← dial_tcp connect_failed
    on_failure (close_tcp c) (
        relay_write send_failed c
          (handshake_object (record { role = codes "receiver"; code = code })))
    ack ← on_failure (close_tcp c) (read_ack receive_failed c)
    on_failure (close_tcp c) (guard (is_empty ack.error) (refused ack.error))
    pure c

abbrev code_chars : Text
code_chars = codes "abcdefghijklmnopqrstuvwxyz0123456789"

abbrev at : ℕ → Text → ℕ
at i [] = 0
at ℕ.zero (c ∷ s) = c
at (ℕ.suc i) (c ∷ s) = at i s

-- The code of eight draws; rand.Intn(36) makes a number below 36 of each.
unfoldable pub random_code : List ℕ → Text
random_code [] = []
random_code (i ∷ draws) = at (i % 36) code_chars ∷ random_code draws
