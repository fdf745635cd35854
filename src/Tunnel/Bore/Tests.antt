-- ===== src/Tunnel/Bore/Tests.antt =====
-- internal/tunnel/bore.go: messages of a server, and a run of the control loop.
use goxfer.Base.{
  arith, ◌++◌, ◌≤◌, ◌≡◌, refl, ◌⊎◌, true, false, List, [], ◌∷◌, some, Text, codes, text_eq, ok, err,
  length, pos, Result,
}
use goxfer.Json.{num}
use goxfer.Tunnel.Bore.{
  ServerJson, ServerMsg, BoreError, object, zero_msg, decode_server_msg, field, bad_json,
}
use goxfer.Tunnel.Bore.Kinds.{OfKind, decode_server_msg-OfKind}
use goxfer.Tunnel.Bore.Loop.{
  Loop, Reachable, start, next, begun, holding, reading, receive, enqueue, handle, cancel,
  connections, Steps, stay, then_step,
}
use goxfer.Tunnel.Bore.Loop.Order.{GoesOn, control_loop_order}
use goxfer.Tunnel.Bore.Loop.Refinement.{
  Implements, Served, queued, requests_of, control_loop-Served,
}

-- A server that sends one message, which offers port 40000.
abbrev one_hello : ServerJson
one_hello = record {
  print = λ o. [];
  value = λ bytes. some (object ((codes "Hello", num (pos 40000)) ∷ []));
}

decode_server_msg-OfKind_example : OfKind (record zero_msg { hello = some 40000 })
unfolding decode_server_msg field text_eq
decode_server_msg-OfKind_example =
    decode_server_msg-OfKind one_hello [] (record zero_msg { hello = some 40000 }) refl

-- A request for a connection, and the end of the stream.
abbrev request : ServerMsg
request = record zero_msg { connection = some (codes "u") }

abbrev stream : List (Result BoreError ServerMsg)
stream = ok request ∷ err bad_json ∷ []

abbrev received : Loop
received = record (begun stream) { coming = err bad_json ∷ []; reader = holding request }

abbrev enqueued : Loop
enqueued = record received { reader = reading; channel = request ∷ [] }

abbrev handled : Loop
handled = record enqueued { channel = []; forwarded = codes "u" ∷ [] }

handled-Reachable : Reachable stream handled
handled-Reachable =
    next enqueued handled
      (next received enqueued
        (next (begun stream) received start (receive request (err bad_json ∷ []) refl refl))
        (enqueue request refl (omega arith)))
      (handle request [] refl refl)

control_loop_order_example :
    ((rest : List Text) × ((codes "u" ∷ []) ++ rest ≡ connections stream))
    × (length handled.channel ≤ 8)
    × ((true ≡ false) ⊎ ((handled.forwarded ≡ connections stream) ⊎ GoesOn handled))
control_loop_order_example = control_loop_order stream handled handled-Reachable

abbrev cancelled : Loop
cancelled = record handled { running = false }

-- One message is handled, and then the context is cancelled.
control_loop-Served_example :
    Served (queued stream) (requests_of enqueued)
    × Served (requests_of enqueued) (requests_of handled)
    × Implements (requests_of handled) (requests_of cancelled)
    × ((true ≡ true) ⊎ ((false ≡ false) × (cancelled.forwarded ≡ enqueued.forwarded)))
    × ((false ≡ false) ⊎ (false ≡ false))
    × ((v : Loop) × Steps cancelled v × (v.closed ≡ true))
control_loop-Served_example =
    control_loop-Served stream enqueued handled cancelled
      (next received enqueued
        (next (begun stream) received start (receive request (err bad_json ∷ []) refl refl))
        (enqueue request refl (omega arith)))
      (then_step enqueued handled stay (handle request [] refl refl)) (cancel refl)
