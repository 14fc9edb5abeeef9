-- ===== src/Ui/Invariant.antt =====
-- What keeps an invariant of the window in appytizer-ui/main.cpp.
use appytizer_app_server.Base.{Bool, true, false, List, [], ◌∷◌, Option, none, some, Text}
use appytizer_app_server.Ui.Actions.{
  Effect, Outcome, thrown, returned, Action, pure, throw, ◌>>=◌, get, modify, ask, catch, when,
  for_each, or_throw,
}
use appytizer_app_server.Ui.Triples.{After, Triple, bind_lem, catch_lem}

-- An invariant of the state: what keeps it and asks for what meets E only.
abbrev pub Keeps : (E : Effect → Type 0) {S A : Type 0} → (S → Type 0) → Action S A → Type 0
Keeps E {S} {A} I action = Triple E {S = S} {A = A} I action (λ a. I) I

pub after_keeps :
    {S A : Type 0} (I : S → Type 0) (outcome : Outcome A) (s : S) → After (λ a. I) I outcome s → I s
after_keeps I (thrown what) s h = h
after_keeps I (returned a) s h = h

pub After-from :
    {S A : Type 0} (I : S → Type 0) (outcome : Outcome A) (s : S) → I s → After (λ a. I) I outcome s
After-from I (thrown what) s h = h
After-from I (returned a) s h = h

-- No exception.
pub returned_only :
    {S A : Type 0} (I : S → Type 0) (outcome : Outcome A) (s : S)
    → After (λ a. I) (λ s. ⊥) outcome s
    → I s
returned_only I (thrown what) s h = absurd h
returned_only I (returned a) s h = h

module _ {E : Effect → Type 0} {S : Type 0} {I : S → Type 0} where
  pub bind-Keeps :
      {A B : Type 0} {action : Action S A} {next : A → Action S B}
      → Keeps E I action
      → ((a : A) → Keeps E I (next a))
      → Keeps E I (action >>= next)
  bind-Keeps t u = bind_lem t u

  pub get-Keeps : Keeps E I get
  unfolding get
  get-Keeps = record { holds = λ s p. (tt, p) }

  pub pure-Keeps : {A : Type 0} (a : A) → Keeps E I (pure a)
  unfolding pure
  pure-Keeps a = record { holds = λ s p. (tt, p) }

  pub throw-Keeps : {A : Type 0} (what : Text) → Keeps E {A = A} I (throw what)
  unfolding throw
  throw-Keeps what = record { holds = λ s p. (tt, p) }

  pub or_throw-Keeps : {A : Type 0} (what : Text) (o : Option A) → Keeps E I (or_throw what o)
  unfolding pure throw
  or_throw-Keeps what none = record { holds = λ s p. (tt, p) }
  or_throw-Keeps what (some a) = record { holds = λ s p. (tt, p) }

  pub modify-Keeps : (change : S → S) → ((s : S) → I s → I (change s)) → Keeps E I (modify change)
  unfolding modify
  modify-Keeps change h = record { holds = λ s p. (tt, h s p) }

  pub ask-Keeps : (effect : Effect) → E effect → Keeps E I (ask effect)
  unfolding ask
  ask-Keeps effect e = record { holds = λ s p. ((e, tt), p) }

  pub catch-Keeps :
      {action : Action S Unit} {handler : Text → Action S Unit}
      → Keeps E I action
      → ((what : Text) → Keeps E I (handler what))
      → Keeps E I (catch action handler)
  catch-Keeps t u = catch_lem t u

  pub when-Keeps :
      (test : Bool) {action : Action S Unit} → Keeps E I action → Keeps E I (when test action)
  when-Keeps true t = t
  when-Keeps false t = pure-Keeps tt

  pub for_each-Keeps :
      {A : Type 0} (xs : List A) {body : A → Action S Unit}
      → ((x : A) → Keeps E I (body x))
      → Keeps E I (for_each xs body)
  for_each-Keeps [] t = pure-Keeps tt
  for_each-Keeps (x ∷ xs) t = bind-Keeps (t x) (λ u. for_each-Keeps xs t)
