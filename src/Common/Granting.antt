-- ===== src/Common/Granting.antt =====
-- grantServiceStartAccess in common/windows_service.cpp, on the access list of a service.
use appytizer_app_server.Base.{
  ℕ, ◌≡◌, refl, ◌⊎◌, inl, inr, Bool, true, false, not, ◌||◌, List, Option, none, some, ◌==◌,
  Bool-cases, if◌then◌else◌, arith,
}
pub mod Outcome

-- What is granted, to whom: EXPLICIT_ACCESSW.
pub record Access : Type 0 where
  pub permissions : ℕ
  pub interactive : Bool

-- SERVICE_START | SERVICE_QUERY_STATUS, for interactive users.
abbrev pub start_access : Access
start_access = record { permissions = 20; interactive = true }

-- The answers of Windows. `List ℕ` are the bytes of an access list; `merged` is what SetEntriesInAcl
-- makes of one.
pub record GrantAnswers : Type 0 where
  pub size_error : ℕ
  pub size : ℕ
  pub queried : Bool
  pub list_read : Bool
  pub sid_created : Bool
  pub merged : Access → List ℕ → Option (List ℕ)
  pub initialized : Bool
  pub list_set : Bool
  pub stored : Bool

abbrev pub error_insufficient_buffer : ℕ
error_insufficient_buffer = 122

abbrev store_list : GrantAnswers → Option (List ℕ) → Option (List ℕ) → Option (List ℕ) × Bool
store_list g none dacl = (dacl, false)
store_list g (some updated) dacl =
    if not g.initialized || not g.list_set
    then (dacl, false)
    else if g.stored
    then (some updated, true)
    else (dacl, false)

abbrev extend_list : GrantAnswers → Option (List ℕ) → Option (List ℕ) × Bool
extend_list g none = (none, false)
extend_list g (some existing) =
    if not g.sid_created
    then (some existing, false)
    else store_list g (g.merged start_access existing) (some existing)

-- The service's access list, `none` where it has none, and whether the access is granted.
unfoldable pub grant_service_start_access : GrantAnswers → Option (List ℕ) → Option (List ℕ) × Bool
grant_service_start_access g dacl =
    if not (g.size_error == error_insufficient_buffer) || (g.size == 0)
    then (dacl, false)
    else if not g.queried
    then (dacl, false)
    else if not g.list_read
    then (dacl, false)
    else extend_list g dacl
