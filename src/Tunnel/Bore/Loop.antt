-- ===== src/Tunnel/Bore/Loop.antt =====
-- internal/tunnel/bore.go: runControlLoop, its reading goroutine and the two channels between them,
-- as steps that interleave in any order.
pub mod Order
pub mod Refinement
use goxfer.Base.{
  ℕ, suc, ◌+◌, ◌≤◌, ◌<◌, ◌≡◌, refl, sym, ap, ◌∙◌, arith, Bool, true, false, List, [], ◌∷◌, ◌++◌,
  append-nil, append_assoc, length, length-append, Option, none, some, Text, Result, ok, err,
}
use goxfer.Tunnel.Bore.{ServerMsg, BoreError}

-- The reader waits for a message, has one for the channel, has ended with an error of the stream,
-- or has ended because the connection was closed under it.
pub data Reader : Type 0 where
  reading : Reader
  holding : ServerMsg → Reader
  stopped : Reader
  cut_off : Reader

-- `coming`: what the calls of recvServerMsg will return. `channel` has room for eight messages,
-- `failed` says that the channel of errors has one. `forwarded`: the connections handed to
-- forwardConnection. `closed`: the deferred c.Close() of runControlLoop has run. `closed`: the deferred c.Close() has run.
pub record Loop : Type 0 where
  pub coming : List (Result BoreError ServerMsg)
  pub reader : Reader
  pub channel : List ServerMsg
  pub failed : Bool
  pub forwarded : List Text
  pub running : Bool
  pub closed : Bool

abbrev pub to_list : Option Text → List Text
to_list none = []
to_list (some uuid) = uuid ∷ []

-- What the loop does with a message: a heartbeat is skipped.
abbrev pub request_of : ServerMsg → Option Text
request_of m = elim m.heartbeat [ true ↦ none | false ↦ m.connection ]

abbrev pub requested : ServerMsg → List Text
requested m = to_list (request_of m)

pub data Step (s : Loop) : Loop → Type 0 where
  receive :
      (m : ServerMsg) (rest : List (Result BoreError ServerMsg))
      → s.reader ≡ reading
      → s.coming ≡ ok m ∷ rest
      → Step s (record s { coming = rest; reader = holding m })
  receive_failed :
      (e : BoreError) (rest : List (Result BoreError ServerMsg))
      → s.reader ≡ reading
      → s.coming ≡ err e ∷ rest
      → Step s (record s { coming = rest; reader = stopped; failed = true })
  enqueue :
      (m : ServerMsg)
      → s.reader ≡ holding m
      → length s.channel < 8
      → Step s (record s { reader = reading; channel = s.channel ++ m ∷ [] })
  handle :
      (m : ServerMsg) (ms : List ServerMsg)
      → s.running ≡ true
      → s.channel ≡ m ∷ ms
      → Step s (record s { channel = ms; forwarded = s.forwarded ++ requested m })
  read_closed :
      s.reader ≡ reading → s.closed ≡ true → Step s (record s { reader = cut_off; failed = true })
  end_failed : s.running ≡ true → s.failed ≡ true → Step s (record s { running = false })
  cancel : s.running ≡ true → Step s (record s { running = false })
  close : s.running ≡ false → s.closed ≡ false → Step s (record s { closed = true })

abbrev pub begun : List (Result BoreError ServerMsg) → Loop
begun coming = record {
  coming = coming;
  reader = reading;
  channel = [];
  failed = false;
  forwarded = [];
  running = true;
  closed = false;
}

pub data Reachable (stream : List (Result BoreError ServerMsg)) : Loop → Type 0 where
  start : Reachable stream (begun stream)
  next : (s t : Loop) → Reachable stream s → Step s t → Reachable stream t

-- The connections that a stream asks for, up to its first error.
abbrev pub connections : List (Result BoreError ServerMsg) → List Text
connections [] = []
connections (ok m ∷ rest) = requested m ++ connections rest
connections (err e ∷ rest) = []

-- A run from one state to another.
pub data Steps (s : Loop) : Loop → Type 0 where
  stay : Steps s s
  then_step : (t u : Loop) → Steps s t → Step t u → Steps s u
