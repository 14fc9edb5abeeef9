-- ===== src/Ipc/Serving/Subscribed.antt =====
-- A client that subscribes in engine/ipc/pipe_server.cpp is put every later event into its queue.
use appytizer_app_server.Base.{
  ◌≡◌, refl, sym, ap, ◌∙◌, true, false, List, [], ◌∷◌, ◌++◌, append_assoc, append-nil, map, some,
  Text, codes, is_empty,
}
use appytizer_app_server.Base.Dict.{lookup}
use appytizer_app_server.Common.Json.{JsonLib, IsLawful}
use appytizer_app_server.Common.Config.{or_default}
use appytizer_app_server.Common.Protocol.Requests.{request_fields}
use appytizer_app_server.Ipc.Request.{request_line}
use appytizer_app_server.Ipc.Server.{Subscriber, testing, new_subscriber, push, broadcast}
use appytizer_app_server.Ipc.Serving.{is_subscription, serve_client}

unfoldable pub broadcast_all : List Text → List Subscriber → List Subscriber
unfolding broadcast
broadcast_all [] subscribers = subscribers
broadcast_all (event ∷ events) subscribers = broadcast_all events (broadcast event subscribers)

abbrev pub line : Text → Text
line event = event ++ (10 ∷ [])

is_empty-line : (event : Text) → is_empty (line event) ≡ false
is_empty-line [] = refl
is_empty-line (c ∷ event) = refl

-- A subscriber whose writer has not begun.
abbrev pub queued : List Text → Subscriber
queued messages = record { messages = messages; running = true; writer = testing }

broadcast-append :
    (event : Text) (messages : List Text) (subscribers : List Subscriber)
    → broadcast event (subscribers ++ (queued messages ∷ []))
      ≡ broadcast event subscribers ++ (queued (messages ++ (line event ∷ [])) ∷ [])
unfolding broadcast push
broadcast-append event messages [] = refl
broadcast-append event messages (s ∷ subscribers) =
    ap (λ ss. push (line event) s ∷ ss) (broadcast-append event messages subscribers)

broadcast_all-append :
    (events messages : List Text) (subscribers : List Subscriber)
    → broadcast_all events (subscribers ++ (queued messages ∷ []))
      ≡ broadcast_all events subscribers ++ (queued (messages ++ map line events) ∷ [])
unfolding broadcast_all
broadcast_all-append [] messages subscribers =
    ap (λ ms. subscribers ++ (queued ms ∷ [])) (sym (append-nil messages))
broadcast_all-append (event ∷ events) messages subscribers =
    ap (broadcast_all events) (broadcast-append event messages subscribers)
    ∙ (broadcast_all-append events (messages ++ (line event ∷ [])) (broadcast event subscribers)
        ∙ ap (λ ms. broadcast_all events (broadcast event subscribers) ++ (queued ms ∷ []))
            (append_assoc messages (line event ∷ []) (map line events)))

module _ (J : JsonLib) (laws : IsLawful J) where
  is_subscription-request_line :
      (id : Text) (params : J.Json)
      → is_subscription J (request_line J id (codes "events.subscribe") (J.dump params)) ≡ true
  unfolding is_subscription request_line lookup
  is_subscription-request_line id params =
      let fs =
        request_fields J id (codes "events.subscribe")
          (or_default (J.object []) (J.parse (J.dump params))) in
      rw
        (
          is_subscription,
          laws.parse_line (J.object fs),
          laws.value_string_object fs (codes "cmd") [] (codes "events.subscribe") refl,
        )
        refl

  serve_client-is_subscription :
      {S : Type 0} (handler : Text → S → S × Text) (request : Text) (subscribers : List Subscriber)
      (s : S)
      → is_empty request ≡ false
      → is_subscription J request ≡ true
      → serve_client J handler (some request) true subscribers s ≡ record {
        engine = (handler request s).0;
        subscribers = subscribers ++ (new_subscriber ∷ []);
        answer = some (handler request s).1;
      }
  unfolding serve_client
  serve_client-is_subscription handler request subscribers s full subscribes =
      rw (serve_client, full, subscribes) refl

  -- Once the server has answered a client that asked for events, each later broadcast puts its event, as a
  -- line, into the client's queue, in the order of the broadcasts, and does to the other subscribers what
  -- it did before; the client is sent what the handler answered.
  pub serve_client-queued :
      {S : Type 0} (handler : Text → S → S × Text) (id : Text) (params : J.Json)
      (subscribers : List Subscriber) (s : S) (events : List Text)
      → let request = request_line J id (codes "events.subscribe") (J.dump params) in
        let served = serve_client J handler (some request) true subscribers s in
        (broadcast_all events served.subscribers
          ≡ broadcast_all events subscribers ++ (queued (map line events) ∷ []))
        × (served.answer ≡ some (handler request s).1)
        × (served.engine ≡ (handler request s).0)
  unfolding request_line
  serve_client-queued handler id params subscribers s events =
      let request = request_line J id (codes "events.subscribe") (J.dump params) in
      let is_served =
        serve_client-is_subscription handler request subscribers s (is_empty-line _)
          (is_subscription-request_line id params) in
      (
        ap (λ served. broadcast_all events served.subscribers) is_served
            ∙ broadcast_all-append events [] subscribers,
        ap (λ served. served.answer) is_served,
        ap (λ served. served.engine) is_served,
      )
