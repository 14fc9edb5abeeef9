-- ===== src/Ipc/Server/Order.antt =====
-- What a subscriber is sent.
use appytizer_app_server.Base.{
  ◌≡◌, refl, sym, subst, ap, ap₂, ◌∙◌, ◌⊎◌, inl, inr, Bool, true, false, List, [], ◌∷◌, ◌++◌,
  append_assoc, append-nil, Text,
}
use appytizer_app_server.Ipc.Server.{
  Writer, testing, waiting, ended, Subscriber, push, wake, writer_move, Step, pushed, moved, halted,
  Life, born, lived,
}

-- All that was queued was delivered or is in the queue, in order; or the writer has ended, and what
-- was delivered is the first part of what was queued.
abbrev pub InOrder : List Text → List Text → Subscriber → Type 0
InOrder queued delivered s =
    (queued ≡ delivered ++ s.messages)
    ⊎ ((s.writer ≡ ended) × (rest : List Text) × (queued ≡ delivered ++ rest))

wake-InOrder :
    (sent : Bool) (messages queued delivered : List Text) (s : Subscriber)
    → s.messages ≡ messages
    → queued ≡ delivered ++ messages
    → InOrder queued (delivered ++ (wake sent messages s).1) (wake sent messages s).0
unfolding wake
wake-InOrder sent [] queued delivered s m h =
    inl (h ∙ ap₂ (λ a b. a ++ b) (sym (append-nil delivered)) (sym m))
wake-InOrder true (message ∷ messages) queued delivered s m h =
    inl (h ∙ sym (append_assoc delivered (message ∷ []) messages))
wake-InOrder false (message ∷ messages) queued delivered s m h =
    inr (
      refl,
      message ∷ messages,
      h ∙ ap (λ d. d ++ (message ∷ messages)) (sym (append-nil delivered)),
    )

writer_move-InOrder :
    (sent : Bool) (writer : Writer) (queued delivered : List Text) (s : Subscriber)
    → s.writer ≡ writer
    → InOrder queued delivered s
    → InOrder queued (delivered ++ (writer_move sent writer s).1) (writer_move sent writer s).0
unfolding writer_move
writer_move-InOrder sent testing queued delivered s w (inl h) =
    inl (h ∙ ap (λ d. d ++ s.messages) (sym (append-nil delivered)))
writer_move-InOrder sent testing queued delivered s w (inr (e, rest, h)) = absurd (cc)
writer_move-InOrder sent waiting queued delivered s w (inl h) =
    wake-InOrder sent s.messages queued delivered s refl h
writer_move-InOrder sent waiting queued delivered s w (inr (e, rest, h)) = absurd (cc)
writer_move-InOrder sent ended queued delivered s w (inl h) =
    inl (h ∙ ap (λ d. d ++ s.messages) (sym (append-nil delivered)))
writer_move-InOrder sent ended queued delivered s w (inr (e, rest, h)) =
    inr (e, rest, h ∙ ap (λ d. d ++ rest) (sym (append-nil delivered)))

Step-InOrder :
    {s : Subscriber} {queued' delivered' : List Text} {t : Subscriber}
    (queued delivered : List Text)
    → Step s queued' delivered' t
    → InOrder queued delivered s
    → InOrder (queued ++ queued') (delivered ++ delivered') t
unfolding push
Step-InOrder queued delivered (pushed message s) (inl h) = inl (
    ap₂ (λ a b. a ++ b) (h ∙ ap (λ d. d ++ s.messages) (sym (append-nil delivered))) refl
    ∙ append_assoc (delivered ++ []) s.messages (message ∷ []))
Step-InOrder queued delivered (pushed message s) (inr (e, rest, h)) = inr (
  e,
  rest ++ (message ∷ []),
  ap₂ (λ a b. a ++ b) (h ∙ ap (λ d. d ++ rest) (sym (append-nil delivered))) refl
      ∙ append_assoc (delivered ++ []) rest (message ∷ []),
)
Step-InOrder queued delivered (moved sent s) h =
    subst
      (λ q.
        InOrder q (delivered ++ (writer_move sent s.writer s).1) (writer_move sent s.writer s).0)
      (sym (append-nil queued)) (writer_move-InOrder sent s.writer queued delivered s refl h)
Step-InOrder queued delivered (halted s) (inl h) =
    inl (append-nil queued ∙ (h ∙ ap (λ d. d ++ s.messages) (sym (append-nil delivered))))
Step-InOrder queued delivered (halted s) (inr (e, rest, h)) =
    inr (e, rest, append-nil queued ∙ (h ∙ ap (λ d. d ++ rest) (sym (append-nil delivered))))

-- In any life of a subscriber, whatever the order of broadcasts, writes, failures and halts, the
-- messages that were delivered followed by the queue are the messages that were broadcast, in their
-- order, none lost and none twice; once its writer has ended, those delivered are a first part of
-- them.
pub Life-InOrder :
    {queued delivered : List Text} {s : Subscriber}
    → Life queued delivered s
    → InOrder queued delivered s
Life-InOrder born = inl refl
Life-InOrder (lived {queued} {delivered} life step) =
    Step-InOrder queued delivered step (Life-InOrder life)
