-- ===== src/Tunnel/Bore/Loop/Order.antt =====
-- internal/tunnel/bore.go: the control loop forwards what the server asks for, in its order.
use goxfer.Base.{
  ◌≤◌, ◌<◌, ◌≡◌, refl, sym, ap, ◌∙◌, arith, true, false, Bool-cases, ◌⊎◌, inl, inr, ltb, ltb→lt,
  ltb→le, List, [], ◌∷◌, ◌++◌, append-nil, append_assoc, length, length-append, Text, Result, ok,
  err,
}
use goxfer.Tunnel.Bore.{ServerMsg, BoreError}
use goxfer.Tunnel.Bore.Loop.{
  Reader, reading, holding, stopped, cut_off, Loop, requested, Step, receive, receive_failed,
  enqueue, handle, read_closed, end_failed, cancel, close, Reachable, start, next, connections,
  Steps, stay, then_step,
}

abbrev pub all_requested : List ServerMsg → List Text
all_requested [] = []
all_requested (m ∷ ms) = requested m ++ all_requested ms

-- What the stream still has: for a reader that was cut off, what it will never read.
abbrev pub to_come : List (Result BoreError ServerMsg) → Reader → List Text
to_come coming reading = connections coming
to_come coming (holding m) = requested m ++ connections coming
to_come coming stopped = []
to_come coming cut_off = connections coming

pub all_requested-append :
    (ms : List ServerMsg) (m : ServerMsg)
    → all_requested (ms ++ m ∷ []) ≡ all_requested ms ++ requested m
all_requested-append [] m = append-nil (requested m)
all_requested-append (n ∷ ms) m =
    ap (λ ts. requested n ++ ts) (all_requested-append ms m)
    ∙ sym (append_assoc (requested n) (all_requested ms) (requested m))

pub record Inv (stream : List (Result BoreError ServerMsg)) (s : Loop) : Type 0 where
  pub ordered :
      s.forwarded ++ (all_requested s.channel ++ to_come s.coming s.reader) ≡ connections stream
  pub bounded : length s.channel ≤ 8
  pub ended : (s.closed ≡ false) ⊎ (s.running ≡ false)
  pub cut : s.reader ≡ cut_off → s.closed ≡ true

Step-Inv :
    (stream : List (Result BoreError ServerMsg)) (s t : Loop)
    → Inv stream s
    → Step s t
    → Inv stream t
Step-Inv stream s t inv (receive m rest r c) = record {
  ordered =
      ap (λ ts. s.forwarded ++ (all_requested s.channel ++ ts))
        (sym (ap (to_come (ok m ∷ rest)) r) ∙ sym (ap (λ cs. to_come cs s.reader) c))
      ∙ inv.ordered;
  bounded = inv.bounded;
  ended = inv.ended;
  cut = λ e. cc e;
}
Step-Inv stream s t inv (receive_failed e rest r c) = record {
  ordered =
      ap (λ ts. s.forwarded ++ (all_requested s.channel ++ ts))
        (sym (ap (to_come (err e ∷ rest)) r) ∙ sym (ap (λ cs. to_come cs s.reader) c))
      ∙ inv.ordered;
  bounded = inv.bounded;
  ended = inv.ended;
  cut = λ e. cc e;
}
Step-Inv stream s t inv (enqueue m r room) =
    let taken = sym (ap (to_come s.coming) r) in
    let channel = all_requested-append s.channel m in
    record {
      ordered =
          ap (λ ts. s.forwarded ++ (ts ++ connections s.coming)) channel
          ∙ ap (λ ts. s.forwarded ++ ts)
              (append_assoc (all_requested s.channel) (requested m) (connections s.coming))
          ∙ ap (λ ts. s.forwarded ++ (all_requested s.channel ++ ts)) taken
          ∙ inv.ordered;
      bounded = omega (arith, room, length-append s.channel (m ∷ []));
      ended = inv.ended;
      cut = λ e. cc e;
    }
Step-Inv stream s t inv (handle m ms on c) =
    let rest = to_come s.coming s.reader in
    record {
      ordered =
          append_assoc s.forwarded (requested m) (all_requested ms ++ rest)
          ∙ ap (λ ts. s.forwarded ++ ts) (sym (append_assoc (requested m) (all_requested ms) rest))
          ∙ ap (λ cs. s.forwarded ++ (all_requested cs ++ rest)) (sym c)
          ∙ inv.ordered;
      bounded = omega (arith, inv.bounded, ap length c);
      ended = inv.ended;
      cut = inv.cut;
    }
Step-Inv stream s t inv (read_closed r shut) = record {
  ordered =
      ap (λ ts. s.forwarded ++ (all_requested s.channel ++ ts)) (sym (ap (to_come s.coming) r))
      ∙ inv.ordered;
  bounded = inv.bounded;
  ended = inv.ended;
  cut = λ e. shut;
}
Step-Inv stream s t inv (end_failed on f) = record {
  ordered = inv.ordered;
  bounded = inv.bounded;
  ended = inr refl;
  cut = inv.cut;
}
Step-Inv stream s t inv (cancel on) = record {
  ordered = inv.ordered;
  bounded = inv.bounded;
  ended = inr refl;
  cut = inv.cut;
}
Step-Inv stream s t inv (close off unclosed) = record {
  ordered = inv.ordered;
  bounded = inv.bounded;
  ended = inr off;
  cut = λ e. refl;
}

pub Steps-Inv :
    (stream : List (Result BoreError ServerMsg)) (s t : Loop)
    → Inv stream s
    → Steps s t
    → Inv stream t
Steps-Inv stream s t inv stay = inv
Steps-Inv stream s t inv (then_step r u run step) =
    Step-Inv stream r u (Steps-Inv stream s r inv run) step

pub Reachable-Inv :
    (stream : List (Result BoreError ServerMsg)) (s : Loop) → Reachable stream s → Inv stream s
Reachable-Inv stream s start = record {
  ordered = refl;
  bounded = omega arith;
  ended = inl refl;
  cut = λ e. cc e;
}
Reachable-Inv stream s (next r t before step) =
    Step-Inv stream r s (Reachable-Inv stream r before) step

-- A step that does not end the loop.
abbrev pub GoesOn : Loop → Type 0
GoesOn s = (t : Loop) × Step s t × (t.running ≡ s.running)

module _ (stream : List (Result BoreError ServerMsg)) (s : Loop) (on : s.running ≡ true)
    (inv : Inv stream s) where
  handles : (ms : List ServerMsg) → s.channel ≡ ms → 0 < length ms → GoesOn s
  handles [] c h = absurd (omega arith)
  handles (m ∷ ms) c h =
      (record s { channel = ms; forwarded = s.forwarded ++ requested m }, handle m ms on c, refl)

  all_done : s.channel ≡ [] → to_come s.coming s.reader ≡ [] → s.forwarded ≡ connections stream
  all_done c r =
      sym (append-nil s.forwarded)
      ∙ ap (λ ts. s.forwarded ++ ts)
          (sym r ∙ ap (λ ms. all_requested ms ++ to_come s.coming s.reader) (sym c))
      ∙ inv.ordered

  emptied :
      (ms : List ServerMsg)
      → s.channel ≡ ms
      → to_come s.coming s.reader ≡ []
      → (s.forwarded ≡ connections stream) ⊎ GoesOn s
  emptied [] c r = inl (all_done c r)
  emptied (m ∷ ms) c r = inr (handles (m ∷ ms) c (omega arith))

  reads :
      (coming : List (Result BoreError ServerMsg))
      → s.coming ≡ coming
      → s.reader ≡ reading
      → (s.forwarded ≡ connections stream) ⊎ GoesOn s
  reads [] c r = emptied s.channel refl (ap (to_come s.coming) r ∙ ap connections c)
  reads (ok m ∷ rest) c r =
      inr (record s { coming = rest; reader = holding m }, receive m rest r c, refl)
  reads (err e ∷ rest) c r =
      inr (
        record s { coming = rest; reader = stopped; failed = true },
        receive_failed e rest r c,
        refl,
      )

  goes_on : (r : Reader) → s.reader ≡ r → (s.forwarded ≡ connections stream) ⊎ GoesOn s
  goes_on reading r = reads s.coming refl r
  goes_on (holding m) r = elim (Bool-cases (ltb (length s.channel) 8)) [
    | inl t ↦ inr (
      record s { reader = reading; channel = s.channel ++ m ∷ [] },
      enqueue m r (ltb→lt (length s.channel) 8 t),
      refl,
    )
    | inr t ↦ inr (handles s.channel refl (omega (arith, ltb→le (length s.channel) 8 t)))
  ]
  goes_on stopped r = emptied s.channel refl (ap (to_come s.coming) r)
  goes_on cut_off r = elim inv.ended [
    | inl unclosed ↦ cc (inv.cut r, unclosed)
    | inr off ↦ cc (on, off)
  ]

-- In every state that the control loop, its reader and its channels can reach, in any order of
-- their steps, the connections forwarded are the first ones that the server asked for before an
-- error, in its order, the channel holds at most eight messages, and either the loop has ended,
-- or all has been forwarded, or a step can be taken that does not end it.
pub control_loop_order :
    (stream : List (Result BoreError ServerMsg)) (s : Loop)
    → Reachable stream s
    → ((rest : List Text) × (s.forwarded ++ rest ≡ connections stream))
      × (length s.channel ≤ 8)
      × ((s.running ≡ false) ⊎ ((s.forwarded ≡ connections stream) ⊎ GoesOn s))
control_loop_order stream s reached =
    let inv = Reachable-Inv stream s reached in
    (
      (_, inv.ordered),
      inv.bounded,
      elim (Bool-cases s.running) [
        | inl on ↦ inr (goes_on stream s on inv s.reader refl)
        | inr off ↦ inl off
      ],
    )
