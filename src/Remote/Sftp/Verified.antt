-- ===== src/Remote/Sftp/Verified.antt =====
-- internal/transfer/sftp.go: an upload that ends well was verified.
use goxfer.Base.{
  subst, after, ℕ, zero, suc, ◌≡◌, refl, sym, ap, ◌∙◌, Bool, true, false, List, [], ◌∷◌, Option,
  none, some, Bytes, Text, text_eq, text_eq_iff, if◌then◌else◌, arith, Outcome, done, fail,
  guard-eq-done, >>=-eq-done,
}
use goxfer.Base.Keeps.{Keeps, Keeps-bind, Keeps-pure, Keeps-guard}
use goxfer.Base.Dict.{Dict, lookup}
use goxfer.Hex.{hex_encode}
use goxfer.Paths.{dir}
use goxfer.Remote.Sftp.{
  Sftp, SftpError, next_call, call, found, read_local, mkdir_all, create, keep_copy, copy_to,
  calculate_local_checksum, calculate_remote_checksum, attempt, upload, retry_on, is_mismatch,
  mismatch, open_failed, make_dir_failed, create_failed, copy_failed, remote_checksum_failed,
  local_checksum_failed,
}

call-eq-done :
    (e : SftpError) (w : Sftp) {x : Unit {0}} {t : Sftp}
    → call e w ≡ done x t
    → (t.local_files ≡ w.local_files) × (t.server ≡ w.server)
unfolding call
call-eq-done e w h = go w.faults h
  where
    go :
        (fs : List Bool) {x : Unit {0}} {t : Sftp}
        → next_call e w fs ≡ done x t
        → (t.local_files ≡ w.local_files) × (t.server ≡ w.server)
    go [] h = ground arith
    go (false ∷ fs) h = ground arith
    go (true ∷ fs) h = cc

found-eq-done :
    {A : Type 0} (e : SftpError) (o : Option A) (w : Sftp) {a : A} {t : Sftp}
    → found e o w ≡ done a t
    → (o ≡ some a) × (t ≡ w)
found-eq-done e none w h = cc
found-eq-done e (some a) w h = (ground arith, ground arith)

read_local-eq-done :
    (e : SftpError) (path : Text) (w : Sftp) {content : Bytes} {t : Sftp}
    → read_local e path w ≡ done content t
    → (lookup path w.local_files ≡ some content) × (t.local_files ≡ w.local_files)
unfolding read_local
read_local-eq-done e path w h =
    let (x, u, called, taken) = >>=-eq-done (call e) _ w h in
    let (same, _) = call-eq-done e w called in
    let (there, unmoved) = found-eq-done e (lookup path u.local_files) u taken in
    (ap (lookup path) (sym same) ∙ there, ap (λ (v : Sftp). v.local_files) unmoved ∙ same)

abbrev LocalIs : Dict Bytes → Sftp → Type 0
LocalIs d w = w.local_files ≡ d

call-Keeps : (d : Dict Bytes) (e : SftpError) → Keeps (LocalIs d) (call e)
unfolding call
call-Keeps d e = record { kept = λ w q. go w w.faults q }
  where
    go : (w : Sftp) (fs : List Bool) → LocalIs d w → LocalIs d (after (next_call e w fs))
    go w [] q = q
    go w (false ∷ fs) q = q
    go w (true ∷ fs) q = q

found-Keeps :
    {A : Type 0} (d : Dict Bytes) (e : SftpError) (o : Sftp → Option A)
    → Keeps (LocalIs d) (λ w. found e (o w) w)
found-Keeps {A} d e o = record { kept = λ w q. go w q (o w) }
  where
    go : (w : Sftp) → LocalIs d w → (r : Option A) → LocalIs d (after (found e r w))
    go w q none = q
    go w q (some a) = q

read_local-Keeps :
    (d : Dict Bytes) (e : SftpError) (path : Text) → Keeps (LocalIs d) (read_local e path)
unfolding read_local
read_local-Keeps d e path =
    Keeps-bind (LocalIs d) (call e) _ (call-Keeps d e)
      λ _. found-Keeps d e (λ w. lookup path w.local_files)

module _ (sha256 : Bytes → Bytes) where
  local_sum-eq-done :
      (path : Text) (w : Sftp) {sum : Text} {t : Sftp}
      → calculate_local_checksum sha256 path w ≡ done sum t
      → (content : Bytes) × (lookup path w.local_files ≡ some content)
        × (sum ≡ hex_encode (sha256 content))
  unfolding calculate_local_checksum
  local_sum-eq-done path w h =
      let (content, u, taken, e) = >>=-eq-done (read_local local_checksum_failed path) _ w h in
      (content, (read_local-eq-done local_checksum_failed path w taken).0, ground arith)

  remote_sum-eq-done :
      (path : Text) (w : Sftp) {sum : Text} {t : Sftp}
      → calculate_remote_checksum sha256 path w ≡ done sum t
      → (content : Bytes) × (lookup path t.server ≡ some content)
        × (sum ≡ hex_encode (sha256 content))
  unfolding calculate_remote_checksum
  remote_sum-eq-done path w h =
      let (x, u, called, more) = >>=-eq-done (call remote_checksum_failed) _ w h in
      let (content, v, taken, e) =
        >>=-eq-done (λ v. found remote_checksum_failed (lookup path v.server) v) _ u more in
      let (there, unmoved) = found-eq-done remote_checksum_failed (lookup path u.server) u taken in
      (content, ground arith, ground arith)

  attempt-eq-done :
      (path remote : Text) (w w' : Sftp)
      → attempt sha256 path remote w ≡ done tt w'
      → (source kept : Bytes) × (lookup path w.local_files ≡ some source)
        × (lookup remote w'.server ≡ some kept)
        × (hex_encode (sha256 source) ≡ hex_encode (sha256 kept))
  unfolding attempt
  attempt-eq-done path remote w w' h =
      let (local_sum, w1, e1, h1) = >>=-eq-done (calculate_local_checksum sha256 path) _ w h in
      let (content, w2, e2, h2) = >>=-eq-done (read_local open_failed path) _ w1 h1 in
      let (x3, w3, e3, h3) = >>=-eq-done (mkdir_all (dir remote)) _ w2 h2 in
      let (x4, w4, e4, h4) = >>=-eq-done (create remote) _ w3 h3 in
      let (x5, w5, e5, h5) = >>=-eq-done (copy_to remote content) _ w4 h4 in
      let (remote_sum, w6, e6, h6) =
        >>=-eq-done (calculate_remote_checksum sha256 remote) _ w5 h5 in
      let (right, same) = guard-eq-done (text_eq local_sum remote_sum) mismatch w6 h6 in
      let (source, there, summed) = local_sum-eq-done path w e1 in
      let (kept, held, summed') = remote_sum-eq-done remote w5 e6 in
      (
        source,
        kept,
        there,
        ap (λ (v : Sftp). lookup remote v.server) (sym same) ∙ held,
        sym summed ∙ (text_eq_iff local_sum remote_sum).0 right ∙ summed',
      )

  attempt-Keeps :
      (d : Dict Bytes) (path remote : Text) → Keeps (LocalIs d) (attempt sha256 path remote)
  unfolding attempt calculate_local_checksum calculate_remote_checksum mkdir_all create keep_copy
      copy_to
  attempt-Keeps d path remote =
      Keeps-bind (LocalIs d) (calculate_local_checksum sha256 path) _
        (Keeps-bind (LocalIs d) (read_local local_checksum_failed path) _
          (read_local-Keeps d local_checksum_failed path) λ content. Keeps-pure (LocalIs d) _)
        λ sum.
          Keeps-bind (LocalIs d) (read_local open_failed path) _
            (read_local-Keeps d open_failed path)
            λ content.
              Keeps-bind (LocalIs d) (mkdir_all (dir remote)) _
                (Keeps-bind (LocalIs d) (call make_dir_failed) _ (call-Keeps d make_dir_failed)
                  λ _. record { kept = λ w q. q })
                λ _.
                  Keeps-bind (LocalIs d) (create remote) _
                    (Keeps-bind (LocalIs d) (call create_failed) _ (call-Keeps d create_failed)
                      λ _. record { kept = λ w q. q })
                    λ _.
                      Keeps-bind (LocalIs d) (copy_to remote content) _
                        (Keeps-bind (LocalIs d) (keep_copy remote content) _
                          (record { kept = λ w q. q }) λ _. call-Keeps d copy_failed)
                        λ _.
                          Keeps-bind (LocalIs d) (calculate_remote_checksum sha256 remote) _
                            (Keeps-bind (LocalIs d) (call remote_checksum_failed) _
                              (call-Keeps d remote_checksum_failed)
                              λ _.
                                Keeps-bind (LocalIs d)
                                  (λ v. found remote_checksum_failed (lookup remote v.server) v) _
                                  (found-Keeps d remote_checksum_failed
                                    (λ v. lookup remote v.server))
                                  λ content. Keeps-pure (LocalIs d) _)
                            λ remote_sum. Keeps-guard (LocalIs d) (text_eq sum remote_sum) mismatch

  -- When an upload reports a verified file, the hexadecimal SHA-256 of the local file is that of
  -- what the server holds at the remote path, however many rounds it took and whatever calls
  -- failed before.
  pub upload-eq-done :
      (left : ℕ) (path remote : Text) (w w' : Sftp)
      → upload sha256 left path remote w ≡ done true w'
      → (source kept : Bytes) × (lookup path w.local_files ≡ some source)
        × (lookup remote w'.server ≡ some kept)
        × (hex_encode (sha256 source) ≡ hex_encode (sha256 kept))
  unfolding upload
  upload-eq-done zero path remote w w' h = cc
  upload-eq-done (suc left) path remote w w' h =
      go (attempt sha256 path remote w) refl h (λ t. upload-eq-done left path remote t w')
    where
      Verified : Sftp → Type 0
      Verified v =
          (source kept : Bytes) × (lookup path v.local_files ≡ some source)
          × (lookup remote w'.server ≡ some kept)
          × (hex_encode (sha256 source) ≡ hex_encode (sha256 kept))

      go :
          (o : Outcome Sftp SftpError (Unit {0}))
          → attempt sha256 path remote w ≡ o
          → retry_on sha256 (upload sha256 left path remote) o ≡ done true w'
          → ((t : Sftp) → upload sha256 left path remote t ≡ done true w' → Verified t)
          → Verified w
      go (done x t) e h later =
          attempt-eq-done path remote w w' (e ∙ ap (λ v. done tt v) (ground arith))
      go (fail f t) e h later = retried (is_mismatch sha256 f) h
        where
          same : t.local_files ≡ w.local_files
          same =
              subst (λ (o : Outcome Sftp SftpError (Unit {0})). LocalIs w.local_files (after o)) e
                ((attempt-Keeps w.local_files path remote).kept w refl)

          retried :
              (b : Bool)
              → (if b then upload sha256 left path remote t else fail f t) ≡ done true w'
              → Verified w
          retried true h =
              let (source, kept, there, held, equal) = later t h in
              (source, kept, ap (lookup path) (sym same) ∙ there, held, equal)
          retried false h = cc
