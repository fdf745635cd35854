-- ===== src/Tunnel/Bore.antt =====
-- internal/tunnel/bore.go: the tunnel through bore.pub.
pub mod Kinds
pub mod Ledger
pub mod Loop
mod Tests
use goxfer.Base.{
  ℕ, ◌^◌, Bool, true, false, List, [], ◌∷◌, ◌++◌, Option, none, some, Bytes, Text, codes, text_eq,
  ℤ, pos, negsuc, ltb, take, drop, ◌==◌, if◌then◌else◌, Proc, Outcome, done, fail, pure, throw,
  ◌>>=◌, ◌>>◌, Result, ok, err,
}
use goxfer.Base.Family.{set}
use goxfer.Base.Triple.{on_failure}
use goxfer.Hex.{decimal}
use goxfer.Json.{Json, JsonObject, null, other, flag, num, text}
use goxfer.Net.{Net, dial_tcp, write_tcp, close_tcp}
use goxfer.Session.{Conn}

-- A value as json.Unmarshal meets it: one that is no object, or the fields of an object.
pub data ServerValue : Type 0 where
  plain : Json → ServerValue
  object : JsonObject → ServerValue

pub record ServerJson : Type 0 where
  pub print : JsonObject → Bytes
  pub value : Bytes → Option ServerValue

pub record ServerMsg : Type 0 where
  pub hello : Option ℕ
  pub connection : Option Text
  pub error : Option Text
  pub challenge : Option Text
  pub heartbeat : Bool

abbrev pub zero_msg : ServerMsg
zero_msg = record {
  hello = none;
  connection = none;
  error = none;
  challenge = none;
  heartbeat = false;
}

pub data BoreError : Type 0 where
  connect_failed hello_failed receive_failed authentication_wanted no_hello local_failed
        accept_failed :
      BoreError
  unknown_string : Text → BoreError
  bad_json bad_value unknown_message : BoreError
  server_error : Text → BoreError

-- json.Unmarshal into a string, a map of fields, a uint16.
abbrev string_value : ServerValue → Option Text
string_value (plain (text t)) = some t
string_value (plain null) = some []
string_value _ = none

abbrev fields_value : ServerValue → Option JsonObject
fields_value (object o) = some o
fields_value (plain null) = some []
fields_value _ = none

abbrev pub uint16_value : Json → Option ℕ
uint16_value (num (pos n)) = if ltb n (2 ^ 16) then some n else none
uint16_value (num (negsuc n)) = none
uint16_value null = some 0
uint16_value (text t) = none
uint16_value (flag b) = none
uint16_value other = none

abbrev pub text_value : Json → Option Text
text_value (text t) = some t
text_value null = some []
text_value (num z) = none
text_value (flag b) = none
text_value other = none

-- The last field of a name: later fields overwrite earlier ones in a map.
abbrev or_else : Option Json → Option Json → Option Json
or_else (some v) w = some v
or_else none w = w

unfoldable pub field : Text → JsonObject → Option Json
unfolding text_eq
field k [] = none
field k ((j, v) ∷ o) = or_else (field k o) (if text_eq j k then some v else none)

abbrev pub field_msg : {A : Type 0} → (A → ServerMsg) → Option A → Result BoreError ServerMsg
field_msg make none = err bad_value
field_msg make (some a) = ok (make a)

-- The cases in their order.
abbrev pub by_challenge : Option Json → Result BoreError ServerMsg
by_challenge (some v) = field_msg (λ t. record zero_msg { challenge = some t }) (text_value v)
by_challenge none = err unknown_message

abbrev pub by_error : Option Json → Result BoreError ServerMsg → Result BoreError ServerMsg
by_error (some v) next = field_msg (λ t. record zero_msg { error = some t }) (text_value v)
by_error none next = next

abbrev pub by_connection : Option Json → Result BoreError ServerMsg → Result BoreError ServerMsg
by_connection (some v) next =
    field_msg (λ t. record zero_msg { connection = some t }) (text_value v)
by_connection none next = next

abbrev pub by_hello : Option Json → Result BoreError ServerMsg → Result BoreError ServerMsg
by_hello (some v) next = field_msg (λ n. record zero_msg { hello = some n }) (uint16_value v)
by_hello none next = next

abbrev pub decode_fields : JsonObject → Result BoreError ServerMsg
decode_fields o = by_hello (field (codes "Hello") o) (
    by_connection (field (codes "Connection") o)
      (by_error (field (codes "Error") o) (by_challenge (field (codes "Challenge") o))))

abbrev pub decode_string : Text → Result BoreError ServerMsg
decode_string s =
    if text_eq s (codes "Heartbeat")
    then ok (record zero_msg { heartbeat = true })
    else err (unknown_string s)

abbrev pub decode_value : ServerValue → Result BoreError ServerMsg
decode_value v = elim (string_value v) [
  | some s ↦ decode_string s
  | none ↦ elim (fields_value v) [ none ↦ err bad_json | some o ↦ decode_fields o ]
]

abbrev pub decode_read : Option ServerValue → Result BoreError ServerMsg
decode_read none = err bad_json
decode_read (some v) = decode_value v

-- ReadBytes(0)
abbrev pub take_zero : Bytes → Option (Bytes × Bytes)
take_zero [] = none
take_zero (b ∷ bs) =
    let rest = take_zero bs in
    if b == 0
    then some ([], bs)
    else elim rest [ none ↦ none | some (data_read, behind) ↦ some (b ∷ data_read, behind) ]

abbrev pub BoreProc : Type 0 → Type 0
BoreProc A = Proc Net BoreError A

-- The bytes of both ways that pass until one copy ends; then both connections are closed.
abbrev pub passed : ℕ → ℕ → ℕ → Net → Net
passed k from to n =
    let c = n.conns from in
    let d = n.conns to in
    record n {
      conns =
          set (set n.conns from (record c { incoming = drop k c.incoming })) to
            (record d { sent = d.sent ++ take k c.incoming });
    }

unfoldable pub pipe : ℕ → ℕ → ℕ → ℕ → Net → Net
pipe k l a b n = close_tcp b (close_tcp a (passed l a b (passed k b a n)))

module _ (J : ServerJson) where
  unfoldable pub decode_server_msg : Bytes → Result BoreError ServerMsg
  unfolding field
  decode_server_msg bytes = decode_read (J.value bytes)

  unfoldable pub send : BoreError → ℕ → JsonObject → BoreProc (Unit {0})
  send e c o = write_tcp e c (J.print o ++ (0 ∷ []))

  abbrev pub received : Net → Result BoreError ServerMsg → Outcome Net BoreError ServerMsg
  received n (ok m) = done m n
  received n (err e) = fail e n

  abbrev pub split_off : ℕ → Net → Option (Bytes × Bytes) → Outcome Net BoreError ServerMsg
  split_off c n none =
      fail receive_failed
        (record n { conns = set n.conns c (record (n.conns c) { incoming = [] }) })
  split_off c n (some (bytes, rest)) =
      received (record n { conns = set n.conns c (record (n.conns c) { incoming = rest }) })
        (decode_server_msg bytes)

  unfoldable pub recv_server_msg : ℕ → BoreProc ServerMsg
  recv_server_msg c n = split_off c n (take_zero (n.conns c).incoming)

  -- What Start makes of the server's answer.
  abbrev hello_port : Option ℕ → BoreProc ℕ
  hello_port none = throw no_hello
  hello_port (some port) = pure port

  abbrev refusal : Option Text → Option ℕ → BoreProc ℕ
  refusal (some e) hello = throw (server_error e)
  refusal none hello = hello_port hello

  abbrev pub answered : Option Text → Option Text → Option ℕ → BoreProc ℕ
  answered (some c) e hello = throw authentication_wanted
  answered none e hello = refusal e hello

  -- The connection to the server, for the control loop, and the public address.
  unfoldable pub start : BoreProc (ℕ × Text)
  start = do
    c ← dial_tcp connect_failed
    on_failure (close_tcp c) (send hello_failed c ((codes "Hello", num (pos 0)) ∷ []))
    m ← on_failure (close_tcp c) (recv_server_msg c)
    port ← on_failure (close_tcp c) (answered m.challenge m.error m.hello)
    pure (c, codes "bore.pub:" ++ decimal (pos port))

  -- The bytes that `pipe` will pass are given. Nothing was read from the new connection before, so
  -- its reader has nothing buffered to pass on first.
  unfoldable pub forward_connection : ℕ → ℕ → Text → BoreProc (Unit {0})
  forward_connection k l uuid = do
    c ← dial_tcp connect_failed
    on_failure (close_tcp c) (send accept_failed c ((codes "Accept", text uuid) ∷ []))
    d ← on_failure (close_tcp c) (dial_tcp local_failed)
    λ n. done tt (pipe k l c d n)
