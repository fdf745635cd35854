-- ===== src/Tunnel/Bore/Loop/Refinement.antt =====
-- internal/tunnel/bore.go: the control loop, its reader and its channels implement a queue of requests.
use goxfer.Base.{
  ◌≡◌, refl, sym, ap, ◌∙◌, subst, Bool, true, false, Bool-cases, ◌⊎◌, inl, inr, List, [], ◌∷◌, ◌++◌,
  append-nil, append_assoc, Option, none, some, Text, Result,
}
use goxfer.Tunnel.Bore.{ServerMsg, BoreError}
use goxfer.Tunnel.Bore.Loop.{
  Loop, begun, requested, request_of, to_list, Reachable, start, next, Step, receive,
  receive_failed, enqueue, handle, read_closed, end_failed, cancel, close, connections, Steps, stay,
  then_step,
}
use goxfer.Tunnel.Bore.Loop.Order.{
  Steps-Inv, Reachable-Inv, all_requested, all_requested-append, to_come,
}

-- What the loop is for: requests wait in their order, and are served one after another until it ends.
pub record Requests : Type 0 where
  pub waiting : List Text
  pub served : List Text
  pub live : Bool

pub data Serve (a : Requests) : Requests → Type 0 where
  serve :
      (uuid : Text) (rest : List Text)
      → a.live ≡ true
      → a.waiting ≡ uuid ∷ rest
      → Serve a (record a { waiting = rest; served = a.served ++ uuid ∷ [] })
  stop : a.live ≡ true → Serve a (record a { live = false })

abbrev pub requests_of : Loop → Requests
requests_of s = record {
  waiting = all_requested s.channel ++ to_come s.coming s.reader;
  served = s.forwarded;
  live = s.running;
}

-- What the queue can come to.
pub data Served (a : Requests) : Requests → Type 0 where
  begin : Served a a
  after_step : (b c : Requests) → Served a b → Serve b c → Served a c

abbrev pub queued : List (Result BoreError ServerMsg) → Requests
queued stream = record { waiting = connections stream; served = []; live = true }

-- At most one step of the queue.
abbrev pub Implements : Requests → Requests → Type 0
Implements a b = (a ≡ b) ⊎ Serve a b

-- Handling a message serves what it asks for, if it asks for something.
handled :
    (rest : List Text) (r : Option Text) (a : Requests)
    → a.live ≡ true
    → a.waiting ≡ to_list r ++ rest
    → Implements a (record a { waiting = rest; served = a.served ++ to_list r })
handled rest none a live w = inl (
    ap (λ ts. record { waiting = a.waiting; served = ts; live = a.live })
      (sym (append-nil a.served))
    ∙ ap (λ ts. record { waiting = ts; served = a.served ++ []; live = a.live }) w)
handled rest (some uuid) a live w = inr (serve uuid rest live w)

-- The same requests are waiting.
still_waiting :
    (s : Loop) (ts : List Text)
    → all_requested s.channel ++ to_come s.coming s.reader ≡ ts
    → requests_of s ≡ record { waiting = ts; served = s.forwarded; live = s.running }
still_waiting s ts h = ap (λ us. record { waiting = us; served = s.forwarded; live = s.running }) h

Step-Implements : (s t : Loop) → Step s t → Implements (requests_of s) (requests_of t)
Step-Implements s t (receive m rest r c) = inl (
    still_waiting s _
      (ap (λ ts. all_requested s.channel ++ ts) (ap (to_come s.coming) r ∙ ap connections c)))
Step-Implements s t (receive_failed e rest r c) = inl (
    still_waiting s _
      (ap (λ ts. all_requested s.channel ++ ts) (ap (to_come s.coming) r ∙ ap connections c)))
Step-Implements s t (enqueue m r room) = inl (
    still_waiting s _ (
      ap (λ ts. all_requested s.channel ++ ts) (ap (to_come s.coming) r)
      ∙ sym (append_assoc (all_requested s.channel) (requested m) (connections s.coming))
      ∙ ap (λ ts. ts ++ connections s.coming) (sym (all_requested-append s.channel m))))
Step-Implements s t (handle m ms on c) =
    let coming = to_come s.coming s.reader in
    handled (all_requested ms ++ coming) (request_of m) (requests_of s) on (
      ap (λ cs. all_requested cs ++ coming) c
      ∙ append_assoc (requested m) (all_requested ms) coming)
Step-Implements s t (read_closed r shut) =
    inl (still_waiting s _ (ap (λ ts. all_requested s.channel ++ ts) (ap (to_come s.coming) r)))
Step-Implements s t (end_failed on f) = inr (stop on)
Step-Implements s t (cancel on) = inr (stop on)
Step-Implements s t (close off unclosed) = inl refl

extended : (a b c : Requests) → Served a b → Implements b c → Served a c
extended a b c h (inl e) = subst (Served a) e h
extended a b c h (inr step) = after_step b c h step

Steps-Served : (s t : Loop) → Steps s t → Served (requests_of s) (requests_of t)
Steps-Served s t stay = begin
Steps-Served s t (then_step r u run step) =
    extended (requests_of s) (requests_of r) (requests_of u) (Steps-Served s r run)
      (Step-Implements r u step)

Reachable-Steps :
    (stream : List (Result BoreError ServerMsg)) (s : Loop)
    → Reachable stream s
    → Steps (begun stream) s
Reachable-Steps stream s start = stay
Reachable-Steps stream s (next r t before step) =
    then_step r s (Reachable-Steps stream r before) step

-- A queue that has stopped serves nothing any more.
Served-stopped :
    (a b : Requests) → Served a b → a.live ≡ false → (b.live ≡ false) × (b.served ≡ a.served)
Served-stopped a b begin off = (off, refl)
Served-stopped a b (after_step c d before step) off =
    let (off_c, same) = Served-stopped a c before off in refused step off_c same
  where
    refused :
        {c d : Requests}
        → Serve c d
        → c.live ≡ false
        → c.served ≡ a.served
        → (d.live ≡ false) × (d.served ≡ a.served)
    refused (serve uuid rest live w) off_c same = cc (live, off_c)
    refused (stop live) off_c same = cc (live, off_c)

-- The loop can always be told to end, and then closes its connection.
can_close : (s : Loop) → (t : Loop) × Steps s t × (t.closed ≡ true)
can_close s = elim (Bool-cases s.closed) [
  | inl shut ↦ (s, stay, shut)
  | inr unclosed ↦ elim (Bool-cases s.running) [
    | inl on ↦
        let ended : Loop = record s { running = false } in
        (
          record ended { closed = true },
          then_step ended _ (then_step s ended stay (cancel on)) (close refl unclosed),
          refl,
        )
    | inr off ↦ (record s { closed = true }, then_step s _ stay (close off unclosed), refl)
  ]
]

-- The control loop with its reading goroutine and channels implements a queue of the stream's
-- connection requests: in every state that it can reach, and in every run from there, whatever
-- order the steps come in, what it has forwarded and what is on the way is what the queue comes
-- to, and a step of the loop is at most one step of the queue, which serves the first request or
-- stops. From a state in which the loop has ended nothing more is forwarded. The connection is
-- closed only when the loop has ended, and from every state a run leads to its being closed.
pub control_loop-Served :
    (stream : List (Result BoreError ServerMsg)) (s t u : Loop)
    → Reachable stream s
    → Steps s t
    → Step t u
    → Served (queued stream) (requests_of s)
      × Served (requests_of s) (requests_of t)
      × Implements (requests_of t) (requests_of u)
      × ((s.running ≡ true) ⊎ ((u.running ≡ false) × (u.forwarded ≡ s.forwarded)))
      × ((u.closed ≡ false) ⊎ (u.running ≡ false))
      × ((v : Loop) × Steps u v × (v.closed ≡ true))
control_loop-Served stream s t u reached run step = (
  Steps-Served (begun stream) s (Reachable-Steps stream s reached),
  Steps-Served s t run,
  Step-Implements t u step,
  elim (Bool-cases s.running) [
    | inl on ↦ inl on
    | inr off ↦ inr (
        Served-stopped (requests_of s) (requests_of u) (Steps-Served s u (then_step t u run step))
          off)
  ],
  (Steps-Inv stream s u (Reachable-Inv stream s reached) (then_step t u run step)).ended,
  can_close u,
)
