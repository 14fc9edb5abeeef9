-- ===== src/Ipc/Request/Answered.antt =====
-- Requests of the client in appytizer-ui/ipc/pipe_client.cpp: what the Engine reads, and what comes back.
use appytizer_app_server.Base.{
  ◌<◌, ◌≡◌, ◌≢◌, refl, ap, ◌∙◌, true, [], ◌∷◌, ◌++◌, none, some, arith, Text, length, take,
  length-take, if◌then◌else◌,
}
use appytizer_app_server.Common.Json.{JsonLib, IsLawful}
use appytizer_app_server.Common.Config.{or_default, and_then}
use appytizer_app_server.Common.Protocol.{is_some, request_in, fields_of_request, parse_request}
use appytizer_app_server.Common.Protocol.Requests.{request_fields, fields_of_request-object}
use appytizer_app_server.Ipc.Request.{Attempts, connect_pipe, Exchange, request_line, request}

module _ (J : JsonLib) (laws : IsLawful J) where
  -- The line that the client writes for a command and parameters is read by the Engine as a request
  -- with the identifier, the command and the parameters.
  pub parse_request-request_line :
      (id command : Text) (params : J.Json)
      → parse_request J (request_line J id command (J.dump params))
        ≡ some (record { id = id; command = command; params = params })
  unfolding parse_request request_in request_line
  parse_request-request_line id command params =
      let fs = request_fields J id command params in
      ap
        (λ o. and_then (request_in J) (
          J.parse (
            J.dump (J.object (request_fields J id command (or_default (J.object []) o)))
            ++ (10 ∷ []))))
        (laws.parse_dump params)
      ∙ (ap (and_then (request_in J)) (laws.parse_line (J.object fs))
          ∙ (ap (λ o. if is_some o then fields_of_request J (J.object fs) else none)
                (laws.as_object_object fs)
              ∙ fields_of_request-object J laws id command params))

-- An answer that is longer than the client's buffer is cut: the callback is given its first 65536 bytes,
-- also if the client could connect and the Engine wrote the whole answer.
pub request_cut :
    (J : JsonLib) (A : Attempts) (exchange : Text → Exchange) (id command params answer : Text)
    → connect_pipe A ≡ true
    → (exchange (request_line J id command params)).written ≡ true
    → (exchange (request_line J id command params)).answer ≡ some answer
    → 65536 < length answer
    → (request J A exchange id command params ≡ (true, take 65536 answer))
      × (take 65536 answer ≢ answer)
unfolding request
request_cut J A exchange id command params answer connected written answered long =
    let shorter = length-take 65536 answer (omega (arith, long)) in
    (
      rw (request, connected, written, answered) refl,
      λ same. absurd (omega (arith, long, shorter, ap length same)),
    )
