-- ===== src/Ipc/Serving.antt =====
-- PipeServer::serve_client in engine/ipc/pipe_server.cpp up to the subscriber's writer, and stop.
use appytizer_app_server.Base.{
  Bool, true, false, not, ◌||◌, List, [], ◌∷◌, ◌++◌, map, Option, none, some, Text, codes, text_eq,
  is_empty, if◌then◌else◌,
}
use appytizer_app_server.Common.Json.{JsonLib}
use appytizer_app_server.Common.Config.{or_default, and_then}
use appytizer_app_server.Ipc.Server.{Subscriber, new_subscriber, halt}
pub mod Subscribed

-- The Engine's state, and the subscribers in the order in which they came.
pub record Served (S : Type 0) : Type 0 where
  pub engine : S
  pub subscribers : List Subscriber
  -- What the client is sent; `none` where nothing reaches it.
  pub answer : Option Text

module _ (J : JsonLib) where
  -- Text that is no JSON, and a field `cmd` of another type, are caught.
  unfoldable pub is_subscription : Text → Bool
  is_subscription request =
      text_eq (or_default [] (and_then (λ j. J.value_string j (codes "cmd") []) (J.parse request)))
        (codes "events.subscribe")

  -- The answer is written behind the subscription: an event between the two waits in the queue. A
  -- subscriber that cannot be written to is erased.
  abbrev answer_request :
      {S : Type 0} → (Text → S → S × Text) → Text → Bool → List Subscriber → S → Served S
  answer_request handler request written subscribers s =
      let (engine, answer) = handler request s in
      if not written
      then record { engine = engine; subscribers = subscribers; answer = none }
      else record {
        engine = engine;
        subscribers =
            if is_subscription request then subscribers ++ (new_subscriber ∷ []) else subscribers;
        answer = some answer;
      }

  -- `read` is what ReadFile gives, at most 4096 bytes; a longer message is an error of it.
  unfoldable pub serve_client :
      {S : Type 0} → (Text → S → S × Text) → Option Text → Bool → List Subscriber → S → Served S
  unfolding is_subscription
  serve_client handler none written subscribers s = record {
    engine = s;
    subscribers = subscribers;
    answer = none;
  }
  serve_client handler (some request) written subscribers s =
      if is_empty request
      then record { engine = s; subscribers = subscribers; answer = none }
      else answer_request handler request written subscribers s
