-- ===== src/Remote/Ftps/Verified.antt =====
-- internal/transfer/ftps.go: what it means that an upload returned without an error.
use goxfer.Base.{
  ◌+◌, ◌<◌, ◌^◌, inc64_lem, ℕ, zero, suc, ◌≡◌, ◌⊎◌, inl, inr, refl, sym, ap, ◌∙◌, Bool, true, false,
  List, [], ◌∷◌, Option, none, some, Bytes, Text, length, ℤ, pos, eq_ℤ, eq_ℤ_iff, if◌then◌else◌,
  arith, done, ◌>>◌, >>=-eq-done,
}
use goxfer.Base.Dict.{lookup}
use goxfer.Remote.Ftps.{
  Ftp, FtpError, FtpProc, Notice, succeeded, unverified, transferring, store_error, size_mismatch,
  size_differs, say, open_local, stor, file_size, size_of, size_outcome, again, judge, after_store,
  attempts, rounds, transfer_file_with_retry,
}

-- The last line printed tells that the server's file has the size of the source, which it has, or
-- that its size could not be asked for.
abbrev pub Reported : Text → Text → ℤ → Ftp → Type 0
Reported local_path remote size w =
    ((content : Bytes) × (rest : List Notice) × (lookup remote w.server ≡ some content)
      × (pos (length content) ≡ size)
      × (w.printed ≡ succeeded local_path ∷ rest))
    ⊎ ((rest : List Notice) × (w.printed ≡ unverified remote ∷ rest))

say-eq-done :
    (n : Notice) (w : Ftp) {x : Unit {0}} {t : Ftp}
    → say n w ≡ done x t
    → (t.printed ≡ n ∷ w.printed) × (t.server ≡ w.server)
unfolding say
say-eq-done n w h = ground arith

size_of-eq-some :
    (o : Option Bytes) {n : ℕ}
    → size_of o ≡ some n
    → (content : Bytes) × (o ≡ some content) × (length content ≡ n)
size_of-eq-some none h = cc
size_of-eq-some (some content) h = (content, refl, ground arith)

file_size-eq-done :
    (path : Text) (w : Ftp) {n : ℕ} {t : Ftp}
    → file_size path w ≡ done (some n) t
    → (content : Bytes) × (lookup path t.server ≡ some content) × (length content ≡ n)
unfolding file_size
file_size-eq-done path w {n} {t} h =
    let (content, there, size) =
      size_of-eq-some (lookup path w.server) (go w.sizes (ground arith)) in
    (content, ground arith, size)
  where
    go :
        (bs : List Bool) → size_outcome bs path w ≡ some n → size_of (lookup path w.server) ≡ some n
    go [] e = e
    go (true ∷ bs) e = e
    go (false ∷ bs) e = cc

module _ (local_path remote : Text) (size : ℤ) where
  -- What is known of the attempts that follow, if any are left.
  abbrev Follows : ℕ → FtpProc (Unit {0}) → Type 0
  Follows left rest =
      (k : ℕ) (v v' : Ftp) → left ≡ suc k → rest v ≡ done tt v' → Reported local_path remote size v'

  again-Reported :
      (left : ℕ) (rest : FtpProc (Unit {0})) (e : FtpError) (v v' : Ftp)
      → Follows left rest
      → again left rest e v ≡ done tt v'
      → Reported local_path remote size v'
  again-Reported zero rest e v v' follows h = cc
  again-Reported (suc left) rest e v v' follows h = follows left v v' refl h

  judge-Reported :
      (left : ℕ) (rest : FtpProc (Unit {0})) (o : Option ℕ) (v v' : Ftp)
      → Follows left rest
      → ((n : ℕ)
          → o ≡ some n
          → (content : Bytes) × (lookup remote v.server ≡ some content) × (length content ≡ n))
      → judge local_path remote size left rest o v ≡ done tt v'
      → Reported local_path remote size v'
  judge-Reported left rest none v v' follows sized h =
      inr (v.printed, (say-eq-done (unverified remote) v h).0)
  judge-Reported left rest (some n) v v' follows sized h = go (eq_ℤ (pos n) size) refl h
    where
      go :
          (b : Bool)
          → eq_ℤ (pos n) size ≡ b
          → (if b
                then say (succeeded local_path)
                else say (size_mismatch local_path) >> again left rest size_differs)
              v
            ≡ done tt v'
          → Reported local_path remote size v'
      go true e h =
          let (content, there, long) = sized n refl in
          let (printed, server) = say-eq-done (succeeded local_path) v h in
          inl (
            content,
            v.printed,
            ap (lookup remote) server ∙ there,
            ap pos long ∙ (eq_ℤ_iff (pos n) size).0 e,
            printed,
          )
      go false e h =
          let (x, u, said, more) = >>=-eq-done (say (size_mismatch local_path)) _ v h in
          again-Reported left rest size_differs u v' follows more

  after_store-Reported :
      (left : ℕ) (rest : FtpProc (Unit {0})) (stored : Bool) (v v' : Ftp)
      → Follows left rest
      → after_store local_path remote size left rest stored v ≡ done tt v'
      → Reported local_path remote size v'
  after_store-Reported left rest true v v' follows h =
      let (o, u, asked, judged) =
        >>=-eq-done (file_size remote) (judge local_path remote size left rest) v h in
      judge-Reported left rest o u v' follows
        (λ n e. file_size-eq-done remote v (asked ∙ ap (λ r. done r u) e)) judged
  after_store-Reported zero rest false v v' follows h = cc
  after_store-Reported (suc left) rest false v v' follows h =
      let (x, u, said, more) = >>=-eq-done (say (store_error local_path)) _ v h in
      follows left u v' refl more

  attempts-Follows : (left : ℕ) → Follows left (attempts local_path remote size left)
  unfolding attempts
  attempts-Follows zero k v v' e h = cc
  attempts-Follows (suc left) k w w' e h =
      let (x1, w1, e1, h1) = >>=-eq-done (say (transferring local_path remote)) _ w h in
      let (content, w2, e2, h2) = >>=-eq-done (open_local local_path) _ w1 h1 in
      let (stored, w3, e3, h3) = >>=-eq-done (stor remote content) _ w2 h2 in
      after_store-Reported left (attempts local_path remote size left) stored w3 w'
        (attempts-Follows left) h3

-- When a transfer with a number of retries that is not negative, and below 2^63 - 1, returns
-- without an error, the last thing it printed is that the size is verified, and then the file at
-- the remote path has the size of the walk, or that the size could not be verified; it never ends
-- quietly.
pub transfer_file_with_retry-Reported :
    (local_path remote : Text) (size : ℤ) (n : ℕ) (w w' : Ftp)
    → n + 1 < 2 ^ 63
    → transfer_file_with_retry local_path remote size (pos n) w ≡ done tt w'
    → Reported local_path remote size w'
unfolding transfer_file_with_retry
transfer_file_with_retry-Reported local_path remote size n w w' small h =
    attempts-Follows local_path remote size (n + 1) n w w' (omega arith)
      (ap (λ z. attempts local_path remote size (rounds z) w) (sym (inc64_lem n small)) ∙ h)
