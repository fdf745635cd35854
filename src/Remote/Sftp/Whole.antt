-- ===== src/Remote/Sftp/Whole.antt =====
-- internal/transfer/sftp.go: SFTPTransfer, from logging in to the walk that starts the uploads.
use goxfer.Base.{
  Bool, true, false, List, ◌∷◌, Option, none, some, Bytes, Text, codes, length, drop, ltb, is_empty,
  has_prefix, ◌&&◌, if◌then◌else◌, done, fail, throw, ◌>>=◌, ◌>>◌, lift, Result, ok, err,
}
use goxfer.Paths.{dir, join}
use goxfer.Remote.Walk.{Item, directory, file, special, unreadable, rel, remote_path, walk}
use goxfer.Remote.Sftp.{
  SftpError, SftpProc, call, mkdir_all, access_failed, rel_failed, dial_failed, client_failed,
  key_failed, passphrase_failed, parse_failed, home_failed, known_hosts_failed,
}

abbrev pub related : Option Text → SftpProc Text
related none w = fail rel_failed w
related (some r) w = done r w

unfoldable pub spawn : Text → Text → SftpProc (Unit {0})
spawn path remote w = done tt (record w { started = (path, remote) ∷ w.started })

abbrev visit_file : Text → Text → Text → SftpProc (Unit {0})
visit_file src_path dest_dir path = do
  relative ← related (rel src_path path)
  spawn path (remote_path src_path dest_dir relative)

-- The function of the walk: a directory has its parent made, all else starts an upload.
unfoldable pub visit : Text → Text → Item → SftpProc (Unit {0})
visit src_path dest_dir (unreadable path) = throw access_failed
visit src_path dest_dir (directory path) = do
  relative ← related (rel src_path path)
  mkdir_all (dir (remote_path src_path dest_dir relative))
visit src_path dest_dir (file path size) = visit_file src_path dest_dir path
visit src_path dest_dir (special path size) = visit_file src_path dest_dir path

-- How the user is known to the server, and the server to the user.
pub data AuthMethod : Type 0 where
  public_key : Bytes → AuthMethod
  password : Text → AuthMethod

pub data HostKeyCheck : Type 0 where
  ignore_host_key : HostKeyCheck
  check_known_hosts : Text → HostKeyCheck

-- What is read to log in. `parse_key` and `known_hosts` are the SSH library's.
pub record SshInputs : Type 0 where
  pub key_file : Text → Option Bytes
  pub passphrase : Option Bytes
  pub parse_key : Bytes → Bytes → Option Bytes
  pub home : Option Text
  pub known_hosts : Text → Bool

abbrev pub required : {A : Type 0} → SftpError → Option A → Result SftpError A
required e none = err e
required e (some a) = ok a

unfoldable pub auth_method : SshInputs → Text → Text → Result SftpError AuthMethod
auth_method i key_path secret =
    if is_empty key_path then ok (password secret) else elim (i.key_file key_path) [
      | none ↦ err key_failed
      | some key ↦ elim i.passphrase [
        | none ↦ err passphrase_failed
        | some phrase ↦ elim (i.parse_key key phrase) [
          | none ↦ err parse_failed
          | some signer ↦ ok (public_key signer)
        ]
      ]
    ]

abbrev pub known_hosts_at : SshInputs → Text → Result SftpError HostKeyCheck
known_hosts_at i path =
    if i.known_hosts path then ok (check_known_hosts path) else err known_hosts_failed

-- A leading `~/` stands for the home directory.
unfoldable pub host_key_check : SshInputs → Bool → Text → Result SftpError HostKeyCheck
host_key_check i true path = ok ignore_host_key
host_key_check i false path =
    if ltb 1 (length path) && has_prefix path (codes "~/")
    then elim i.home [
      | none ↦ err home_failed
      | some home ↦ known_hosts_at i (join home (drop 2 path))
    ]
    else known_hosts_at i path

-- What the program logs in with, or the error that it returns.
unfoldable pub log_in :
    SshInputs → Text → Text → Text → Bool → Result SftpError (AuthMethod × HostKeyCheck)
log_in i key_path secret known_hosts insecure = elim (auth_method i key_path secret) [
  | err e ↦ err e
  | ok method ↦ elim (host_key_check i insecure known_hosts) [
    | err e ↦ err e
    | ok check ↦ ok (method, check)
  ]
]

-- `items` is what Walk finds. The uploads that the walk starts run beside it, and their outcome is
-- only printed: the transfer does not return it.
unfoldable pub sftp_transfer :
    SshInputs
    → (key_path secret src_path dest_dir known_hosts : Text) → Bool
    → List Item
    → SftpProc (Unit {0})
sftp_transfer i key_path secret src_path dest_dir known_hosts insecure items = do
  login ← lift (log_in i key_path secret known_hosts insecure)
  call dial_failed
  call client_failed
  walk (visit src_path dest_dir) items
