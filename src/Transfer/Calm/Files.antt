-- ===== src/Transfer/Calm/Files.antt =====
-- The steps on files of internal/transfer/p2p.go always come to an end.
use goxfer.Base.{
  refl, Bool, true, false, ◌||◌, ◌++◌, ◌∷◌, [], List, Option, Bytes, Text, codes, has_prefix, ℤ,
  pos, negsuc, if◌then◌else◌, pure, ok, err, lift, Bool-cases, inl, inr,
}
use goxfer.Base.Dict.{lookup}
use goxfer.Json.{JsonText}
use goxfer.Paths.{is_abs, clean, join, dir, dot_dot}
use goxfer.Transfer.World.{
  found, syscall, read_file, put_file, mkdir_all, save_failed, open_failed, seek_failed, abs_failed,
  bad_archive, copy_failed, escaping_entry,
}
use goxfer.Transfer.Resume.{
  try, write_file, remove_file, truncate, resize, rehash_file, copy_file, ResumeState,
  save_resume_state, delete_resume_state, load_resume_state, resume_state_path, encode_state,
  decode_found,
}
use goxfer.Transfer.Extract.{
  EntryType, directory, regular, special, TarItem, entry, broken, abs, entry_target, extract_as,
  write_entry, extract_entry, extract_items, extract_tar_gz,
}
use goxfer.Transfer.Calm.{
  Steady, Steady-bind, Steady-pure, Steady-throw, Steady-found, Steady-try, Steady-ignore,
  Steady-if, syscall-Steady, put_file-Steady, read_file-Steady, mkdir_all-Steady,
}

write_file-Steady : (path : Text) (content : Bytes) → Steady (write_file path content)
unfolding write_file
write_file-Steady path content =
    Steady-bind (syscall save_failed) _ (syscall-Steady save_failed refl) λ _.
      Steady-bind (put_file path []) _ (put_file-Steady path []) λ _.
        Steady-bind (syscall save_failed) _ (syscall-Steady save_failed refl)
          λ _. put_file-Steady path content

pub remove_file-Steady : (path : Text) → Steady (remove_file path)
unfolding remove_file
remove_file-Steady path =
    Steady-bind (syscall save_failed) _ (syscall-Steady save_failed refl)
      λ _. record { calm = λ w n h. (refl, h) }

pub truncate-Steady : (path : Text) (z : ℤ) → Steady (truncate path z)
unfolding truncate
truncate-Steady path (pos k) =
    Steady-bind (syscall seek_failed) _ (syscall-Steady seek_failed refl) λ _.
      Steady-bind (λ w. found seek_failed (lookup path w.files) w) _
        (Steady-found seek_failed (λ w. lookup path w.files) refl)
        λ content. put_file-Steady path (resize k content)
truncate-Steady path (negsuc k) = Steady-throw seek_failed refl

pub rehash_file-Steady : (path : Text) (z : ℤ) → Steady (rehash_file path z)
unfolding rehash_file
rehash_file-Steady path (pos k) =
    Steady-bind (read_file open_failed path) _ (read_file-Steady open_failed path refl)
      λ content. Steady-pure _
rehash_file-Steady path (negsuc k) =
    Steady-bind (read_file open_failed path) _ (read_file-Steady open_failed path refl)
      λ content. Steady-pure _

pub copy_file-Steady : (src dst : Text) → Steady (copy_file src dst)
unfolding copy_file
copy_file-Steady src dst =
    Steady-bind (read_file save_failed src) _ (read_file-Steady save_failed src refl)
      λ content. write_file-Steady dst content

pub delete_resume_state-Steady :
    (dest_dir file_id : Text) → Steady (delete_resume_state dest_dir file_id)
unfolding delete_resume_state
delete_resume_state-Steady dest_dir file_id =
    Steady-ignore (remove_file (resume_state_path dest_dir file_id))
      (remove_file-Steady (resume_state_path dest_dir file_id))

module _ (J : JsonText) where
  pub save_resume_state-Steady :
      (dest_dir : Text) (s : ResumeState) → Steady (save_resume_state J dest_dir s)
  unfolding save_resume_state
  save_resume_state-Steady dest_dir s =
      Steady-ignore (write_file (resume_state_path dest_dir s.file_id) (encode_state J s))
        (write_file-Steady (resume_state_path dest_dir s.file_id) (encode_state J s))

  pub load_resume_state-Steady :
      (dest_dir file_id : Text) → Steady (load_resume_state J dest_dir file_id)
  unfolding load_resume_state
  load_resume_state-Steady dest_dir file_id =
      Steady-bind (try (read_file open_failed (resume_state_path dest_dir file_id))) _
        (Steady-try (read_file open_failed (resume_state_path dest_dir file_id))
          (read_file-Steady open_failed (resume_state_path dest_dir file_id) refl))
        λ content. Steady-pure (decode_found J content)

abs-Steady : (path : Text) → Steady (abs path)
unfolding abs
abs-Steady path = Steady-if (is_abs path) (pure (clean path)) _ (Steady-pure (clean path)) (
    Steady-bind (syscall abs_failed) _ (syscall-Steady abs_failed refl)
      λ _. record { calm = λ w n h. (refl, h) })

entry_target-Steady : (abs_dest name : Text) → Steady (lift (entry_target abs_dest name))
unfolding entry_target
entry_target-Steady abs_dest name =
    elim (Bool-cases (has_prefix (clean name) dot_dot || is_abs (clean name))) [
      | inl bad ↦ rw bad (record { calm = λ w n h. (refl, h) })
      | inr good ↦ rw good (go (has_prefix (join abs_dest (clean name)) (abs_dest ++ codes "/")))
    ]
  where
    go :
        (b : Bool)
        → Steady (lift (if b then ok (join abs_dest (clean name)) else err escaping_entry))
    go true = record { calm = λ w n h. (refl, h) }
    go false = record { calm = λ w n h. (refl, h) }

extract_as-Steady :
    (kind : EntryType) (target : Text) (body : Bytes) → Steady (extract_as kind target body)
unfolding write_entry
extract_as-Steady directory target body = mkdir_all-Steady target
extract_as-Steady special target body = Steady-pure tt
extract_as-Steady regular target body =
    Steady-bind (mkdir_all (dir target)) _ (mkdir_all-Steady (dir target)) λ _.
      Steady-bind (syscall open_failed) _ (syscall-Steady open_failed refl) λ _.
        Steady-bind (put_file target []) _ (put_file-Steady target []) λ _.
          Steady-bind (syscall copy_failed) _ (syscall-Steady copy_failed refl)
            λ _. put_file-Steady target body

extract_items-Steady :
    (abs_dest : Text) (items : List TarItem) → Steady (extract_items abs_dest items)
unfolding extract_items extract_entry
extract_items-Steady abs_dest [] = Steady-pure tt
extract_items-Steady abs_dest (broken ∷ items) = Steady-throw bad_archive refl
extract_items-Steady abs_dest (entry e ∷ items) =
    Steady-bind (extract_entry abs_dest e) _
      (Steady-bind (lift (entry_target abs_dest e.name)) _ (entry_target-Steady abs_dest e.name)
        λ target. extract_as-Steady e.type_flag target e.body)
      λ _. extract_items-Steady abs_dest items

pub extract_tar_gz-Steady :
    (untar : Bytes → Option (List TarItem)) (src_path dest_dir : Text)
    → Steady (extract_tar_gz untar src_path dest_dir)
unfolding extract_tar_gz
extract_tar_gz-Steady untar src_path dest_dir =
    Steady-bind (read_file open_failed src_path) _ (read_file-Steady open_failed src_path refl)
      λ content.
        Steady-bind (λ w. found bad_archive (untar content) w) _
          (Steady-found bad_archive (λ _. untar content) refl)
          λ items.
            Steady-bind (abs dest_dir) _ (abs-Steady dest_dir)
              λ abs_dest. extract_items-Steady abs_dest items
