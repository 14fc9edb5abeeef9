-- ===== src/Common/Protocol.antt =====
-- common/ipc_protocol.cpp: requests and responses, a line of JSON each.
use appytizer_app_server.Base.{
  ℕ, Bool, true, false, List, [], ◌∷◌, ◌++◌, Option, none, some, Text, codes, if◌then◌else◌,
}
use appytizer_app_server.Common.Json.{JsonLib}
use appytizer_app_server.Common.Config.{or_default, and_then}
pub mod Requests

pub record IpcRequest (J : JsonLib) : Type 0 where
  pub id : Text
  pub command : Text
  pub params : J.Json

abbrev pub is_some : {A : Type 0} → Option A → Bool
is_some none = false
is_some (some v) = true

module _ (J : JsonLib) where
  -- The three fields; a conversion that throws is caught, and there is no request then.
  abbrev pub request_of : J.Json → Option Text → Option Text → Option (IpcRequest J)
  request_of j (some id) (some command) = some (record {
    id = id;
    command = command;
    params = or_default (J.object []) (J.field j (codes "params"));
  })
  request_of j (some id) none = none
  request_of j none command = none

  abbrev pub fields_of_request : J.Json → Option (IpcRequest J)
  fields_of_request j =
      request_of j (J.value_string j (codes "id") [])
        (and_then J.as_string (J.field j (codes "cmd")))

  unfoldable pub request_in : J.Json → Option (IpcRequest J)
  request_in j = if is_some (J.as_object j) then fields_of_request j else none

  -- Without a field `cmd`, fields_of_request has no command.
  unfoldable pub parse_request : Text → Option (IpcRequest J)
  unfolding request_in
  parse_request line = and_then request_in (J.parse line)

  -- Its callers in the Engine test that the result can be written.
  unfoldable pub response_ok : Text → J.Json → Text
  response_ok id result =
      J.dump (
        J.object (
          (codes "id", J.string id) ∷ (codes "ok", J.boolean true) ∷ (codes "result", result) ∷ []))
      ++ (10 ∷ [])

  unfoldable pub response_error : Text → Text → Text
  response_error id message =
      J.dump (
        J.object (
          (codes "id", J.string id)
          ∷ (codes "ok", J.boolean false)
          ∷ (codes "error", J.string message)
          ∷ []))
      ++ (10 ∷ [])
