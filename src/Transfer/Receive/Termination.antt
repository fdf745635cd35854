-- ===== src/Transfer/Receive/Termination.antt =====
-- internal/transfer/p2p.go: the loops of receiveFiles and receiveOneFile come to an end.
use goxfer.Base.{
  ℕ, suc, zero, ◌≤◌, ◌<◌, ◌≡◌, ◌≢◌, refl, sym, ap, ◌∙◌, Bool, List, Option, none, some, Bytes, Text,
  text_eq, length, arith, Outcome, done, fail, pure, throw, guard, ◌>>◌, Bool-cases, inl, inr,
}
use goxfer.Json.{JsonText}
use goxfer.Protocol.Message.{Message, type_file_start, type_file_chunk, type_file_complete}
use goxfer.Transfer.World.{
  World, Transfer, TransferError, receive, mkdir_all, receive_failed, expected_file_start,
  unexpected_type, out_of_fuel,
}
use goxfer.Transfer.Extract.{TarItem}
use goxfer.Transfer.Resume.{try}
use goxfer.Transfer.Calm.{
  Calm, Steady, stuck, Calm-bind, Calm-eq-done, Steady-bind, Steady-throw, Steady-guard, Steady-if,
  Steady-try, Steady-finally, mkdir_all-Steady, receive-Steady, receive-eq-done,
}
use goxfer.Transfer.Receive.{
  Download, acknowledge, discard, open_download, on_chunk, on_complete, receive_loop, receive_rest,
  receive_one_file, receive_files, receive_into,
}
use goxfer.Transfer.Receive.Steady.{
  acknowledge-Steady, discard-calm, open_download-Steady, on_chunk-Steady, on_complete-Steady,
}

try-eq-some :
    {A : Type 0} (m : Transfer A) (w : World) {a : A} {t : World}
    → try m w ≡ done (some a) t
    → m w ≡ done a t
try-eq-some {A} m w {a} {t} h = go (m w) refl h
  where
    go :
        (o : Outcome World TransferError A)
        → m w ≡ o
        → (elim o as (λ _. Outcome World TransferError (Option A)) [
          | done b u ↦ done (some b) u
          | fail e u ↦ done none u
        ])
          ≡ done (some a) t
        → m w ≡ done a t
    go (done b u) e h = e ∙ ground arith
    go (fail x u) e h = cc

module _ (J : JsonText) (sha256 : Bytes → Bytes) (untar : Bytes → Option (List TarItem)) where
  -- Fuel for every message that can come, and one unit more, is enough for the loop.
  receive_loop-Calm :
      (fuel : ℕ) (dest_dir : Text) (start : Message) (d : Download) (w : World) (n : ℕ)
      → length w.inbox < fuel
      → length w.inbox ≤ n
      → Calm n (receive_loop J sha256 untar fuel dest_dir start d w)
  unfolding receive_loop
  receive_loop-Calm zero dest_dir start d w n enough h = elim enough [ ]
  receive_loop-Calm (suc fuel) dest_dir start d w n enough h =
      Calm-bind n (receive receive_failed) _ w ((receive-Steady receive_failed refl).calm w n h)
        λ msg t e.
          let taken = ap length (receive-eq-done receive_failed w e) in
          elim (Bool-cases (text_eq msg.kind type_file_chunk)) [
            | inl chunk ↦ rw chunk (
                Calm-bind n (on_chunk J dest_dir start d msg)
                  (receive_loop J sha256 untar fuel dest_dir start) t
                  ((on_chunk-Steady J dest_dir start d msg).calm t n (omega arith))
                  λ d' t' e'.
                    let left =
                      Calm-eq-done (length t.inbox) (on_chunk J dest_dir start d msg) t
                        ((on_chunk-Steady J dest_dir start d msg).calm t (length t.inbox)
                          (omega arith))
                        e' in
                    receive_loop-Calm fuel dest_dir start d' t' n (omega arith) (omega arith))
            | inr other ↦ rw other (
                (Steady-if (text_eq msg.kind type_file_complete)
                    (on_complete sha256 untar dest_dir start d msg) (throw unexpected_type)
                    (on_complete-Steady sha256 untar dest_dir start d msg)
                    (Steady-throw unexpected_type refl)).calm
                  t n (omega arith))
          ]

  receive_one_file-Steady :
      (dest_dir : Text) (start : Message) (resume : Bool)
      → Steady (receive_one_file J sha256 untar dest_dir start resume)
  unfolding receive_one_file
  receive_one_file-Steady dest_dir start resume =
      Steady-bind (open_download J dest_dir start resume) _
        (open_download-Steady J dest_dir start resume)
        λ d.
          Steady-finally (discard d.tmp)
            (acknowledge start d >> receive_rest J sha256 untar dest_dir start d)
            (discard-calm d.tmp)
            (Steady-bind (acknowledge start d) _ (acknowledge-Steady start d) λ _. record {
              calm = λ w n h.
                  receive_loop-Calm (suc (length w.inbox)) dest_dir start d w n (omega arith) h;
            })

  receive_files-Calm :
      (fuel : ℕ) (dest_dir : Text) (resume : Bool) (w : World) (n : ℕ)
      → length w.inbox < fuel
      → length w.inbox ≤ n
      → Calm n (receive_files J sha256 untar fuel dest_dir resume w)
  unfolding receive_files
  receive_files-Calm zero dest_dir resume w n enough h = elim enough [ ]
  receive_files-Calm (suc fuel) dest_dir resume w n enough h =
      Calm-bind n (try (receive receive_failed)) _ w
        ((Steady-try (receive receive_failed) (receive-Steady receive_failed refl)).calm w n h)
        (go λ v enough' h'. receive_files-Calm fuel dest_dir resume v n enough' h')
    where
      go :
          ((v : World)
            → length v.inbox < fuel
            → length v.inbox ≤ n
            → Calm n (receive_files J sha256 untar fuel dest_dir resume v))
          → (o : Option Message) (t : World) → try (receive receive_failed) w ≡ done o t
          → Calm n (
              elim o as (λ _. Transfer (Unit {0})) [
                | none ↦ pure tt
                | some msg ↦ (do
                  guard (text_eq msg.kind type_file_start) expected_file_start
                  receive_one_file J sha256 untar dest_dir msg resume
                  receive_files J sha256 untar fuel dest_dir resume)
              ]
                t)
      go more none t e = (
        refl,
        Calm-eq-done n (try (receive receive_failed)) w
            ((Steady-try (receive receive_failed) (receive-Steady receive_failed refl)).calm w n h)
            e,
      )
      go more (some msg) t e =
          let taken =
            ap length
              (receive-eq-done receive_failed w (try-eq-some (receive receive_failed) w e)) in
          let test = Steady-guard (text_eq msg.kind type_file_start) expected_file_start refl in
          let one = receive_one_file-Steady dest_dir msg resume in
          Calm-bind n (guard (text_eq msg.kind type_file_start) expected_file_start) _ t
            (test.calm t n (omega arith))
            λ _ u passed.
              let same =
                Calm-eq-done (length t.inbox)
                  (guard (text_eq msg.kind type_file_start) expected_file_start) t
                  (test.calm t (length t.inbox) (omega arith)) passed in
              Calm-bind n (receive_one_file J sha256 untar dest_dir msg resume) _ u
                (one.calm u n (omega arith))
                λ _ v received.
                  let left =
                    Calm-eq-done (length t.inbox)
                      (receive_one_file J sha256 untar dest_dir msg resume) u
                      (one.calm u (length t.inbox) same) received in
                  more v (omega arith) (omega arith)

  -- Whatever messages come and whichever calls fail, a receiver never ends for want of fuel: each
  -- round of its loops takes a message, so both loops end.
  pub receive_into_terminates :
      (dest_dir : Text) (resume : Bool) (w w' : World)
      → receive_into J sha256 untar dest_dir resume w ≢ fail out_of_fuel w'
  unfolding receive_into
  receive_into_terminates dest_dir resume w w' e =
      let all =
        Steady-bind (mkdir_all dest_dir)
          (λ _ v. receive_files J sha256 untar (suc (length v.inbox)) dest_dir resume v)
          (mkdir_all-Steady dest_dir)
          λ _. record {
            calm = λ v n h.
                receive_files-Calm (suc (length v.inbox)) dest_dir resume v n (omega arith) h;
          } in
      cc (sym (all.calm w (length w.inbox) (omega arith)).0 ∙ ap stuck e)
