-- ===== src/Common/Protocol/Requests.antt =====
-- Requests, read back from the line that a client writes.
use appytizer_app_server.Base.{
  ◌≡◌, refl, ap, ap₂, ◌∙◌, none, some, [], ◌∷◌, Text, codes, if◌then◌else◌,
}
use appytizer_app_server.Base.Dict.{Dict, lookup}
use appytizer_app_server.Common.Json.{JsonLib, IsLawful}
use appytizer_app_server.Common.Config.{or_default, and_then}
use appytizer_app_server.Common.Protocol.{
  request_of, fields_of_request, is_some, request_in, parse_request,
}

module _ (J : JsonLib) where
  abbrev pub request_fields : Text → Text → J.Json → Dict J.Json
  request_fields id command params =
      (codes "id", J.string id) ∷ (codes "cmd", J.string command) ∷ (codes "params", params) ∷ []

module _ (J : JsonLib) (laws : IsLawful J) where
  pub fields_of_request-object :
      (id command : Text) (params : J.Json)
      → fields_of_request J (J.object (request_fields J id command params))
        ≡ some (record { id = id; command = command; params = params })
  unfolding lookup
  fields_of_request-object id command params =
      let fs = request_fields J id command params in
      let id_field = laws.value_string_object fs (codes "id") [] id refl in
      let command_field : and_then J.as_string (J.field (J.object fs) (codes "cmd"))
          ≡ some command =
        ap (and_then J.as_string) (laws.field_object fs (codes "cmd"))
        ∙ laws.as_string_string command in
      let params_field : or_default (J.object []) (J.field (J.object fs) (codes "params"))
          ≡ params =
        ap (or_default (J.object [])) (laws.field_object fs (codes "params")) in
      ap₂ (request_of J (J.object fs)) id_field command_field
      ∙ ap (λ q. some (record { id = id; command = command; params = q })) params_field

  -- A line that a client writes for an identifier, a command and parameters is read as a request of
  -- these three.
  pub parse_request-dump :
      (id command : Text) (params : J.Json)
      → parse_request J (J.dump (J.object (request_fields J id command params)))
        ≡ some (record { id = id; command = command; params = params })
  unfolding parse_request request_in
  parse_request-dump id command params =
      let fs = request_fields J id command params in
      ap (and_then (request_in J)) (laws.parse_dump (J.object fs))
      ∙ (ap (λ o. if is_some o then fields_of_request J (J.object fs) else none)
            (laws.as_object_object fs)
          ∙ fields_of_request-object id command params)
