-- ===== src/Dns/Server/Answered.antt =====
-- DnsServer::run answers what arrives, in order, until it is stopped.
use appytizer_app_server.Base.{
  ℕ, ◌≡◌, refl, sym, ap, ◌∙◌, append-nil, Bool, true, false, not, ◌||◌, ◌&&◌, List, [], ◌∷◌, ◌++◌,
  map, keep, arith, Text, length, is_empty, leb, if◌then◌else◌,
}
use appytizer_app_server.Dns.{make_response}
use appytizer_app_server.Dns.Server.{Datagram, is_received, reply, run}

-- A datagram is answered if it has from 1 to 512 bytes, and the packet code makes a reply of it.
abbrev pub is_answered : Datagram → Bool
is_answered d =
    leb 1 (length d.bytes) && leb (length d.bytes) 512 && not (is_empty (make_response d.bytes))

-- What goes back to the sender.
abbrev pub answer_of : Datagram → Datagram
answer_of d = record { peer = d.peer; bytes = make_response d.bytes }

-- The answers to the datagrams, in their order.
abbrev pub answers : List Datagram → List Datagram
answers ds = map answer_of (keep is_answered ds)

-- The byte that stop sends.
abbrev pub wake_datagram : Text → Datagram
wake_datagram peer = record { peer = peer; bytes = 0 ∷ [] }

is_received-length :
    (bytes : List ℕ) → is_received bytes ≡ (leb 1 (length bytes) && leb (length bytes) 512)
is_received-length [] = refl
is_received-length (c ∷ bytes) = ground arith

-- The two orders in which the code and the answers test the same things.
reply_tests :
    (received empty : Bool) (d r : Datagram) (answer : Datagram → Datagram)
    → answer d ≡ r
    → (if not received || empty then [] else r ∷ [])
      ≡ map answer (if received && not empty then d ∷ [] else [])
reply_tests true true d r answer same = refl
reply_tests true false d r answer same = ap (λ a. a ∷ []) (sym same)
reply_tests false empty d r answer same = refl

reply-answers : (d : Datagram) → reply d ≡ answers (d ∷ [])
unfolding reply
reply-answers d =
    let empty = is_empty (make_response d.bytes) in
    reply_tests (is_received d.bytes) empty d (answer_of d) answer_of refl
    ∙ ap (λ b. map answer_of (if b && not empty then d ∷ [] else [])) (is_received-length d.bytes)

answers-append : (ds es : List Datagram) → answers (ds ++ es) ≡ answers ds ++ answers es
answers-append [] es = refl
answers-append (d ∷ ds) es = ground (arith, answers-append ds es)

-- The datagrams that arrive while the server runs, and the one behind which it finds that it is
-- stopped, are answered in their order: each one of 1 to 512 bytes that make_response answers gets that
-- answer, at its own sender. The loop takes no datagram behind, and ends. The byte that stop sends gets
-- no answer.
pub run-answers :
    (before : List Datagram) (last : Datagram) (after : List (Datagram × Bool)) (peer : Text)
    → (run true (map (λ d. (d, true)) before ++ ((last, false) ∷ after))
        ≡ (answers (before ++ (last ∷ [])), true))
      × (answers (wake_datagram peer ∷ []) ≡ [])
unfolding run make_response
run-answers [] last after peer = (
  ap (λ r. (r ++ [], true)) (reply-answers last)
      ∙ ap (λ r. (r, true)) (append-nil (answers (last ∷ []))),
  refl,
)
run-answers (d ∷ ds) last after peer = (
  ap (λ (r : List Datagram × Bool). (reply d ++ r.0, r.1)) (run-answers ds last after peer).0
      ∙ ap (λ r. (r ++ answers (ds ++ (last ∷ [])), true)) (reply-answers d)
      ∙ ap (λ r. (r, true)) (sym (answers-append (d ∷ []) (ds ++ (last ∷ [])))),
  refl,
)
