-- ===== src/Remote/Ftps/Retries.antt =====
-- internal/transfer/ftps.go: how the attempts of an upload end.
use goxfer.Base.{
  ◌-◌, ℕ, suc, ◌+◌, ◌<◌, ◌≤◌, ◌^◌, ◌≡◌, refl, sym, ap, ◌∙◌, true, false, List, [], ◌∷◌, ◌++◌, some,
  Bytes, Text, length, take, length-take, ℤ, pos, eq_ℤ, eq_ℤ_iff, inc64_lem, if◌then◌else◌, arith,
  done, ◌>>◌, >>=-done,
}
use goxfer.Base.Dict.{Dict, lookup, insert, lookup-insert_self}
use goxfer.Remote.Ftps.{
  Ftp, FtpProc, Store, whole, cut, broken, kept_bytes, is_stored, next_store, rest_of, succeeded,
  transferring, store_error, size_mismatch, size_differs, say, open_local, found_local, stor,
  file_size, size_of, size_outcome, again, judge, after_store, attempts, rounds,
  transfer_file_with_retry,
}

-- A Stor that the program notices to have failed: with an error, or by the size.
abbrev pub Noticed : Bytes → Store → Type 0
Noticed content whole = ⊥
Noticed content (cut n) = n < length content
Noticed content (broken n) = Unit

abbrev pub AllNoticed : Bytes → List Store → Type 0
AllNoticed content [] = Unit
AllNoticed content (s ∷ ss) = Noticed content s × AllNoticed content ss

-- The server as it is after attempts that went this way.
abbrev pub server_after : Text → Bytes → List Store → Dict Bytes → Dict Bytes
server_after remote content [] server = server
server_after remote content (s ∷ ss) server =
    server_after remote content ss (insert remote (kept_bytes s content) server)

-- The source can be read and the sizes be asked for; the coming Stor calls are these.
record Ready (local_path : Text) (content : Bytes) (ss : List Store) (w : Ftp) : Type 0 where
  there : lookup local_path w.local_files ≡ some content
  coming : w.stores ≡ ss
  asked : w.sizes ≡ []

module _ (local_path remote : Text) (content : Bytes) where
  abbrev sent : Store → List Store → Ftp → Ftp
  sent s ss w = record w {
    server = insert remote (kept_bytes s content) w.server;
    stores = ss;
    printed = transferring local_path remote ∷ w.printed;
  }

  attempts_stored :
      (size : ℤ) (left : ℕ) (s : Store) (ss : List Store) (w : Ftp)
      → Ready local_path content (s ∷ ss) w
      → attempts local_path remote size (suc left) w
        ≡ after_store local_path remote size left
            (attempts local_path remote size left)
            (is_stored s)
            (sent s ss w)
  unfolding attempts say open_local stor
  attempts_stored size left s ss w r =
      let w1 : Ftp = record w { printed = transferring local_path remote ∷ w.printed } in
      >>=-done (open_local local_path) _ w1 (ap (λ o. found_local o w1) r.there)
      ∙ >>=-done (stor remote content)
          (after_store local_path remote size left (attempts local_path remote size left)) w1
          (ap
            (λ l. done (is_stored (next_store l)) (record w1 {
              server = insert remote (kept_bytes (next_store l) content) w.server;
              stores = rest_of l;
            }))
            r.coming)

  -- The size that the server gives is that of the bytes it kept.
  file_size_sent :
      (s : Store) (ss : List Store) (w : Ftp)
      → w.sizes ≡ []
      → file_size remote (sent s ss w) ≡ done (some (length (kept_bytes s content))) (sent s ss w)
  unfolding file_size
  file_size_sent s ss w q =
      ap
        (λ l.
          done (size_outcome l remote (sent s ss w)) (record (sent s ss w) { sizes = rest_of l }))
        q
      ∙ ap (λ o. done (size_of o) (record (sent s ss w) { sizes = [] }))
          (lookup-insert_self remote (kept_bytes s content) w.server)
      ∙ ap (λ l. done (some (length (kept_bytes s content))) (record (sent s ss w) { sizes = l }))
          (sym q)

  judge_sent :
      (left k : ℕ) (rest : FtpProc (Unit {0})) (s : Store) (ss : List Store) (w : Ftp)
      → is_stored s ≡ true
      → w.sizes ≡ []
      → after_store local_path remote (pos (length content)) left rest (is_stored s) (sent s ss w)
        ≡ judge local_path remote
            (pos (length content))
            left
            rest
            (some (length (kept_bytes s content)))
            (sent s ss w)
  judge_sent left k rest s ss w stored q =
      ap (λ b. after_store local_path remote (pos (length content)) left rest b (sent s ss w))
        stored
      ∙ >>=-done (file_size remote) (judge local_path remote (pos (length content)) left rest)
          (sent s ss w) (file_size_sent s ss w q)

  size_test : (n : ℕ) → n < length content → eq_ℤ (pos n) (pos (length content)) ≡ false
  unfolding eq_ℤ
  size_test n h = ground arith

  -- After an attempt that was noticed to have failed comes the next one.
  attempt-Noticed :
      (left : ℕ) (s : Store) (ss : List Store) (w : Ftp)
      → Ready local_path content (s ∷ ss) w
      → Noticed content s
      → (w' : Ftp) × (attempts local_path remote (pos (length content)) (suc (suc left)) w
          ≡ attempts local_path remote (pos (length content)) (suc left) w')
        × Ready local_path content ss w'
        × (w'.server ≡ insert remote (kept_bytes s content) w.server)
  unfolding say
  attempt-Noticed left whole ss w r n = elim n [ ]
  attempt-Noticed left (broken k) ss w r n = (
    record (sent (broken k) ss w) {
      printed = store_error local_path ∷ transferring local_path remote ∷ w.printed;
    },
    attempts_stored (pos (length content)) (suc left) (broken k) ss w r,
    record { there = r.there; coming = refl; asked = r.asked },
    refl,
  )
  attempt-Noticed left (cut k) ss w r n =
      let short : eq_ℤ (pos (length (take k content))) (pos (length content)) ≡ false =
        size_test (length (take k content)) (omega (arith, length-take k content)) in
      (
        record (sent (cut k) ss w) {
          printed = size_mismatch local_path ∷ transferring local_path remote ∷ w.printed;
        },
        attempts_stored (pos (length content)) (suc left) (cut k) ss w r
            ∙ judge_sent (suc left) k (attempts local_path remote (pos (length content)) (suc left))
                (cut k) ss w refl r.asked
            ∙ ap
                (λ b.
                  (if b
                      then say (succeeded local_path)
                      else say (size_mismatch local_path)
                        >> attempts local_path remote (pos (length content)) (suc left))
                    (sent (cut k) ss w))
                short,
        record { there = r.there; coming = refl; asked = r.asked },
        refl,
      )

  attempt_whole :
      (left : ℕ) (ss : List Store) (w : Ftp)
      → Ready local_path content (whole ∷ ss) w
      → (w' : Ftp) × (attempts local_path remote (pos (length content)) (suc left) w ≡ done tt w')
        × (lookup remote w'.server ≡ some content)
        × (w'.stores ≡ ss)
  unfolding say
  attempt_whole left ss w r = (
    record (sent whole ss w) {
      printed = succeeded local_path ∷ transferring local_path remote ∷ w.printed;
    },
    attempts_stored (pos (length content)) left whole ss w r
        ∙ judge_sent left left (attempts local_path remote (pos (length content)) left) whole ss w
            refl r.asked
        ∙ ap
            (λ b.
              (if b
                  then say (succeeded local_path)
                  else say (size_mismatch local_path)
                    >> again left (attempts local_path remote (pos (length content)) left)
                        size_differs)
                (sent whole ss w))
            ((eq_ℤ_iff (pos (length content)) (pos (length content))).1 refl),
    lookup-insert_self remote content w.server,
    refl,
  )

  attempts_until :
      (fs : List Store) (extra : ℕ) (more : List Store) (w : Ftp)
      → Ready local_path content (fs ++ (whole ∷ more)) w
      → AllNoticed content fs
      → (w' : Ftp) × (attempts local_path remote (pos (length content)) (length fs + suc extra) w
          ≡ done tt w')
        × (lookup remote w'.server ≡ some content)
        × (w'.stores ≡ more)
  attempts_until [] extra more w r _ =
      let (w1, e, there, left) = attempt_whole extra more w r in
      (
        w1,
        ap (λ n. attempts local_path remote (pos (length content)) n w) (omega arith) ∙ e,
        there,
        left,
      )
  attempts_until (f ∷ fs) extra more w r (n, ns) =
      let (w1, e1, r1, _) = attempt-Noticed (length fs + extra) f (fs ++ (whole ∷ more)) w r n in
      let (w2, e2, there, left) = attempts_until fs extra more w1 r1 ns in
      (
        w2,
        ap (λ k. attempts local_path remote (pos (length content)) k w) (omega arith)
            ∙ e1
            ∙ ap (λ k. attempts local_path remote (pos (length content)) k w1) (omega arith)
            ∙ e2,
        there,
        left,
      )

-- If at most maxRetries stores go wrong, each in a way that an error or the size shows, and the
-- next one is whole, then the transfer succeeds with the server holding the file's content, and
-- no further store is made; where the local file is there, its size is that of the walk, the
-- server tells sizes, and maxRetries + 1 is below 2^63.
pub transfer_file_with_retry_succeeds :
    (local_path remote : Text) (content : Bytes) (max_retries : ℕ) (fs more : List Store) (w : Ftp)
    → max_retries + 1 < 2 ^ 63
    → length fs ≤ max_retries
    → AllNoticed content fs
    → lookup local_path w.local_files ≡ some content
    → w.stores ≡ fs ++ (whole ∷ more)
    → w.sizes ≡ []
    → (w' : Ftp) × (transfer_file_with_retry local_path remote
          (pos (length content))
          (pos max_retries)
          w
        ≡ done tt w')
      × (lookup remote w'.server ≡ some content)
      × (w'.stores ≡ more)
unfolding transfer_file_with_retry
transfer_file_with_retry_succeeds local_path remote content max_retries fs more w small enough
      noticed there coming asked =
    let extra = max_retries - length fs in
    let (w1, e, stored, left) =
      attempts_until local_path remote content fs extra more w
        (record { there = there; coming = coming; asked = asked }) noticed in
    (
      w1,
      ap (λ z. attempts local_path remote (pos (length content)) (rounds z) w)
            (inc64_lem max_retries small)
          ∙ ap (λ k. attempts local_path remote (pos (length content)) k w) (omega arith)
          ∙ e,
      stored,
      left,
    )
