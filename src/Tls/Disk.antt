-- ===== src/Tls/Disk.antt =====
-- The files of the certificate directory, the manager's state and the system that it runs on.
use appytizer_app_server.Base.{
  ℕ, Bool, true, false, ◌||◌, ◌&&◌, List, [], ◌++◌, none, some, Text, codes, if◌then◌else◌,
}
use appytizer_app_server.Base.Dict.{Dict, lookup, insert}
use appytizer_app_server.Sites.Scan.{Answer}

-- Which step of atomic_write fails.
pub record WriteFaults : Type 0 where
  pub directory : Bool
  pub opening : Bool
  pub writing : Bool
  pub restricting : Bool
  pub moving : Bool

-- A file, and whether only SYSTEM and Administrators have access to it.
pub record StoredFile : Type 0 where
  pub contents : Text
  pub restricted : Bool

abbrev pub Files : Type 0
Files = Dict StoredFile

-- The answers of the system during one operation. Each file is written once in it.
pub record System : Type 0 where
  pub write : Text → WriteFaults
  pub restrict_private_keys : Bool
  pub create_directory_fails : Bool
  pub directory_exists : Answer
  pub store_opens : Bool
  pub store_reads : Bool
  pub add_fails : Bool
  pub delete_fails : Bool
  -- A remove_all that fails, and what it leaves.
  pub remove_all_fails : Bool
  pub debris : Files → Files

-- The files by their path below the directory, the DER encodings in LocalMachine\Root, last_error_.
pub record Manager : Type 0 where
  pub files : Files
  pub trust : List (List ℕ)
  pub last_error : Text

abbrev pub ca_certificate_path : Text
ca_certificate_path = codes "appytizer-root-ca.crt.pem"

abbrev pub ca_private_key_path : Text
ca_private_key_path = codes "appytizer-root-ca.key.pem"

abbrev pub metadata_path : Text
metadata_path = codes "ownership.json"

abbrev pub certificate_path : Text → Text
certificate_path hostname = codes "sites/" ++ (hostname ++ codes ".crt.pem")

abbrev pub private_key_path : Text → Text
private_key_path hostname = codes "sites/" ++ (hostname ++ codes ".key.pem")

abbrev pub read_file : Files → Text → Text
read_file files path = elim (lookup path files) [ none ↦ [] | some file ↦ file.contents ]

-- The temporary file is moved over the target, or removed: the target is whole at every moment. A
-- temporary file that cannot be removed is left out: nothing reads it.
unfoldable pub atomic_write : System → Bool → Text → Text → Files → Files × Bool
atomic_write S restrict_access path contents files =
    let faults = S.write path in
    if faults.directory
    then (files, false)
    else if faults.opening || faults.writing
    then (files, false)
    else if restrict_access && faults.restricting
    then (files, false)
    else if faults.moving
    then (files, false)
    else (insert path (record { contents = contents; restricted = restrict_access }) files, true)

-- How an operation ends: `thrown` is an exception that the operation does not catch.
pub data Reply : Type 0 where
  succeeded failed thrown : Reply

abbrev pub reply_of : Bool → Reply
reply_of true = succeeded
reply_of false = failed

abbrev pub Op : Type 0
Op = Manager → Manager × Reply

-- `if (!first) return false;` and `first && second`.
abbrev pub continue : Op → Manager × Reply → Manager × Reply
continue second (m, succeeded) = second m
continue second (m, failed) = (m, failed)
continue second (m, thrown) = (m, thrown)

infixl 5 ◌>>◌
abbrev pub ◌>>◌ : Op → Op → Op
◌>>◌ first second m = continue second (first m)

-- `set_error(message); return false;`
abbrev pub fail_with : Text → Op
fail_with message m = (record m { last_error = message }, failed)
