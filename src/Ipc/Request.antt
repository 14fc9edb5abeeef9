-- ===== src/Ipc/Request.antt =====
-- connect_pipe and PipeClient::request in appytizer-ui/ipc/pipe_client.cpp.
use appytizer_app_server.Base.{
  ℕ, zero, suc, Bool, true, false, not, ◌||◌, ◌&&◌, List, [], ◌∷◌, ◌++◌, Option, none, some, Text,
  codes, take, if◌then◌else◌,
}
use appytizer_app_server.Common.Json.{JsonLib}
use appytizer_app_server.Common.Config.{or_default}
use appytizer_app_server.Common.Protocol.Requests.{request_fields}
pub mod Answered

-- What CreateFileW gives: a pipe, that it is busy, or another error.
pub data Opening : Type 0 where
  opened busy failed : Opening

-- The answers to CreateFileW and, where it is busy, to WaitNamedPipeW, by the number of the attempt.
pub record Attempts : Type 0 where
  pub opening : ℕ → Opening
  pub waited : ℕ → Bool

-- Whether a pipe is given, with that many attempts left from the number on.
unfoldable pub connect : ℕ → ℕ → Attempts → Bool
connect zero attempt A = false
connect (suc left) attempt A =
    let later = connect left (suc attempt) A in
    elim (A.opening attempt) [
      | opened ↦ true
      | busy ↦ if A.waited attempt then later else false
      | failed ↦ false
    ]

unfoldable pub connect_pipe : Attempts → Bool
connect_pipe A = connect 4 0 A

-- What a connected client meets: whether it can write, and what it reads.
pub record Exchange : Type 0 where
  pub written : Bool
  pub answer : Option Text

abbrev buffer_size : ℕ
buffer_size = 65536

abbrev pub not_connected : Text
not_connected = codes "{\"ok\":false,\"error\":\"Engine is not connected\"}"

module _ (J : JsonLib) where
  -- Parameters that cannot be read become an empty object.
  unfoldable pub request_line : Text → Text → Text → Text
  request_line id command params_json =
      J.dump
        (J.object (request_fields J id command (or_default (J.object []) (J.parse params_json))))
      ++ (10 ∷ [])

-- What the callback is given: at most what the buffer holds, and nothing where the exchange fails.
abbrev pub read_answer : Option Text → Text
read_answer none = []
read_answer (some text) = take buffer_size text

-- Whether the client is connected then, and the text that the callback is given. `exchange` is what
-- the Engine answers to the line.
unfoldable pub request :
    (J : JsonLib) → Attempts → (Text → Exchange) → Text → Text → Text → Bool × Text
unfolding connect request_line
request J A exchange id command params_json =
    let met = exchange (request_line J id command params_json) in
    if connect_pipe A
    then (true, if met.written then read_answer met.answer else [])
    else (false, not_connected)
