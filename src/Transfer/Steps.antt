-- ===== src/Transfer/Steps.antt =====
-- The steps of a transfer where nothing fails from outside, and what they need for that.
use goxfer.Base.{◌≡◌, ap, ◌∙◌, ◌++◌, ◌∷◌, [], List, none, some, Bytes, Text, done, fail, >>=-done}
use goxfer.Base.Dict.{lookup, insert, erase}
use goxfer.Protocol.Message.{Message, validate_message, delivered}
use goxfer.Protocol.Message.Validation.{IsValid, validate_message-eq-ok_iff}
use goxfer.Transfer.World.{
  World, TransferError, syscall, found, read_file, send, receive, next_message, save_failed,
  send_failed, require_valid,
}
use goxfer.Transfer.Frame.{NoFaults, syscall-done}
use goxfer.Transfer.Resume.{write_file, remove_file}

pub send_done :
    (m : Message) (w : World)
    → IsValid m
    → NoFaults w
    → send m w ≡ done tt (record w { outbox = w.outbox ++ (delivered m ∷ []) })
unfolding send
send_done m w v q =
    >>=-done (require_valid (validate_message m)) _ w
      (ap (λ r. require_valid r w) ((validate_message-eq-ok_iff m).1 v))
    ∙ >>=-done (syscall send_failed) _ w (syscall-done send_failed w q)

pub receive_done :
    (e : TransferError) (m : Message) (ms : List Message) (w : World)
    → w.inbox ≡ m ∷ ms
    → NoFaults w
    → receive e w ≡ done m (record w { inbox = ms })
unfolding receive
receive_done e m ms w i q = >>=-done (syscall e) _ w (syscall-done e w q) ∙ ap (next_message e w) i

pub receive_at_end :
    (e : TransferError) (w : World) → w.inbox ≡ [] → NoFaults w → receive e w ≡ fail e w
unfolding receive
receive_at_end e w i q = >>=-done (syscall e) _ w (syscall-done e w q) ∙ ap (next_message e w) i

pub read_file_done :
    (e : TransferError) (path : Text) (content : Bytes) (w : World)
    → lookup path w.files ≡ some content
    → NoFaults w
    → read_file e path w ≡ done content w
unfolding read_file
read_file_done e path content w i q =
    >>=-done (syscall e) _ w (syscall-done e w q) ∙ ap (λ o. found e o w) i

pub write_file_done :
    (path : Text) (content : Bytes) (w : World)
    → NoFaults w
    → write_file path content w
      ≡ done tt (record w { files = insert path content (insert path [] w.files) })
unfolding write_file
write_file_done path content w q =
    >>=-done (syscall save_failed) _ w (syscall-done save_failed w q)
    ∙ >>=-done (syscall save_failed) _ (record w { files = insert path [] w.files })
        (syscall-done save_failed (record w { files = insert path [] w.files }) q)

pub remove_file_done :
    (path : Text) (w : World)
    → NoFaults w
    → remove_file path w ≡ done tt (record w { files = erase path w.files })
unfolding remove_file
remove_file_done path w q = >>=-done (syscall save_failed) _ w (syscall-done save_failed w q)

pub read_file_missing :
    (e : TransferError) (path : Text) (w : World)
    → lookup path w.files ≡ none
    → NoFaults w
    → read_file e path w ≡ fail e w
unfolding read_file
read_file_missing e path w i q =
    >>=-done (syscall e) _ w (syscall-done e w q) ∙ ap (λ o. found e o w) i
