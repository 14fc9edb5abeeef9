-- ===== src/Ui/Triples.antt =====
-- Reasoning about the callbacks of appytizer-ui/main.cpp: what holds before, after, and of what is asked.
use appytizer_app_server.Base.{
  ◌≡◌, refl, sym, subst, Bool, true, false, List, [], ◌∷◌, ◌++◌, Option, none, some, Text, All,
  if◌then◌else◌,
}
use appytizer_app_server.Ui.Actions.{
  Effect, Outcome, thrown, returned, Action, pure, throw, ◌>>=◌, then_run, get, modify, ask,
  handled, catch, or_throw,
}

-- One condition where the action returns, another where it throws.
abbrev pub After : {S A : Type 0} → (A → S → Type 0) → (S → Type 0) → Outcome A → S → Type 0
After Q R (thrown what) s = R s
After Q R (returned a) s = Q a s

-- From P the action ends in Q, or in R with an exception, and asks for what meets E only.
pub record Triple (E : Effect → Type 0) {S A : Type 0} (P : S → Type 0) (action : Action S A)
    (Q : A → S → Type 0) (R : S → Type 0) : Type 0 where
  pub holds : (s : S) → P s → All E (action s).1 × After Q R (action s).2 (action s).0

pub All-append :
    {A : Type 0} (P : A → Type 0) (xs ys : List A) → All P xs → All P ys → All P (xs ++ ys)
All-append P [] ys a b = b
All-append P (x ∷ xs) ys (first, rest) b = (first, All-append P xs ys rest b)

none_is_some : {A : Type 0} {a : A} → none ≡ some a → ⊥
none_is_some h = cc

some_inj : {A : Type 0} (a b : A) → some a ≡ some b → a ≡ b
some_inj a b h = cc

false_is_true : false ≡ true → ⊥
false_is_true h = cc

after_lem :
    {S A : Type 0} {Q Q' : A → S → Type 0} {R R' : S → Type 0} (outcome : Outcome A) (s : S)
    → After Q R outcome s
    → ((a : A) (s : S) → Q a s → Q' a s)
    → ((s : S) → R s → R' s)
    → After Q' R' outcome s
after_lem (thrown what) s h after failed = failed s h
after_lem (returned a) s h after failed = after a s h

module _ {E : Effect → Type 0} {S : Type 0} where
  pub pure_lem :
      {A : Type 0} {Q : A → S → Type 0} {R : S → Type 0} (a : A) → Triple E (Q a) (pure a) Q R
  unfolding pure
  pure_lem a = record { holds = λ s p. (tt, p) }

  pub pure_from :
      {A : Type 0} {P : S → Type 0} {Q : A → S → Type 0} {R : S → Type 0} (a : A)
      → ((s : S) → P s → Q a s)
      → Triple E P (pure a) Q R
  unfolding pure
  pure_from a h = record { holds = λ s p. (tt, h s p) }

  pub throw_lem :
      {A : Type 0} {Q : A → S → Type 0} {R : S → Type 0} (what : Text)
      → Triple E {A = A} R (throw what) Q R
  unfolding throw
  throw_lem what = record { holds = λ s p. (tt, p) }

  then_run_lem :
      {A B : Type 0} {Q : A → S → Type 0} {Q' : B → S → Type 0} {R : S → Type 0}
      (before : List Effect) (outcome : Outcome A) (next : A → Action S B) (s : S)
      → All E before
      → After Q R outcome s
      → ((a : A) → Triple E (Q a) (next a) Q' R)
      → All E (then_run before outcome next s).1
        × After Q' R (then_run before outcome next s).2 (then_run before outcome next s).0
  then_run_lem before (thrown what) next s b after t = (b, after)
  then_run_lem before (returned a) next s b after t =
      let (effects, ends) = (t a).holds s after in
      (All-append E before (next a s).1 b effects, ends)

  pub bind_lem :
      {A B : Type 0} {P : S → Type 0} {Q : A → S → Type 0} {Q' : B → S → Type 0} {R : S → Type 0}
      {action : Action S A} {next : A → Action S B}
      → Triple E P action Q R
      → ((a : A) → Triple E (Q a) (next a) Q' R)
      → Triple E P (action >>= next) Q' R
  unfolding ◌>>=◌
  bind_lem {Q = Q} {R = R} {action = action} {next = next} t u = record {
    holds = λ s p.
        let (effects, ends) = t.holds s p in
        then_run_lem {Q = Q} {R = R} (action s).1 (action s).2 next (action s).0 effects ends u;
  }

  pub get_lem : {P : S → Type 0} {R : S → Type 0} → Triple E P get (λ (a : S) s. (a ≡ s) × P s) R
  unfolding get
  get_lem = record { holds = λ s p. (tt, (refl, p)) }

  pub modify_lem :
      {P : S → Type 0} {Q : Unit → S → Type 0} {R : S → Type 0} (change : S → S)
      → ((s : S) → P s → Q tt (change s))
      → Triple E P (modify change) Q R
  unfolding modify
  modify_lem change h = record { holds = λ s p. (tt, h s p) }

  pub ask_lem :
      {P : S → Type 0} {R : S → Type 0} (effect : Effect)
      → E effect
      → Triple E P (ask effect) (λ u. P) R
  unfolding ask
  ask_lem effect e = record { holds = λ s p. ((e, tt), p) }

  handled_lem :
      {Q : Unit → S → Type 0} {R R' : S → Type 0} (before : List Effect) (outcome : Outcome Unit)
      (handler : Text → Action S Unit) (s : S)
      → All E before
      → After Q R outcome s
      → ((what : Text) → Triple E R (handler what) Q R')
      → All E (handled before outcome handler s).1
        × After Q R' (handled before outcome handler s).2 (handled before outcome handler s).0
  handled_lem before (returned a) handler s b after t = (b, after)
  handled_lem before (thrown what) handler s b after t =
      let (effects, ends) = (t what).holds s after in
      (All-append E before (handler what s).1 b effects, ends)

  pub catch_lem :
      {P : S → Type 0} {Q : Unit → S → Type 0} {R R' : S → Type 0} {action : Action S Unit}
      {handler : Text → Action S Unit}
      → Triple E P action Q R
      → ((what : Text) → Triple E R (handler what) Q R')
      → Triple E P (catch action handler) Q R'
  unfolding catch
  catch_lem {Q = Q} {R = R} {R' = R'} {action = action} {handler = handler} t u = record {
    holds = λ s p.
        let (effects, ends) = t.holds s p in
        handled_lem {Q = Q} {R = R} {R' = R'} (action s).1 (action s).2 handler (action s).0 effects
          ends u;
  }

  -- Where an action may as well throw from P.
  pub or_throw_lem :
      {A : Type 0} {P : S → Type 0} (what : Text) (o : Option A)
      → Triple E P (or_throw what o) (λ a s. (o ≡ some a) × P s) P
  unfolding pure throw
  or_throw_lem what none = record { holds = λ s p. (tt, p) }
  or_throw_lem what (some a) = record { holds = λ s p. (tt, (refl, p)) }

  -- Where P says what the option is.
  pub or_throw_when :
      {A : Type 0} {P : S → Type 0} {R : S → Type 0} (what : Text) (o : Option A) (v : A)
      → ((s : S) → P s → o ≡ some v)
      → Triple E P (or_throw what o) (λ a s. (a ≡ v) × P s) R
  unfolding pure throw
  or_throw_when what none v h = record { holds = λ s p. absurd (none_is_some (h s p)) }
  or_throw_when what (some a) v h = record { holds = λ s p. (tt, (some_inj a v (h s p), p)) }

  -- Where P says what the argument is.
  pub argument_when :
      {A B : Type 0} {P : S → Type 0} {Q : A → S → Type 0} {R : S → Type 0}
      (action : B → Action S A) (x v : B)
      → ((s : S) → P s → x ≡ v)
      → Triple E P (action v) Q R
      → Triple E P (action x) Q R
  argument_when {Q = Q} {R = R} action x v h t = record {
    holds = λ s p.
        subst (λ b. All E (action b s).1 × After Q R (action b s).2 (action b s).0) (sym (h s p))
          (t.holds s p);
  }

  -- Where P says how the test ends.
  pub if_when :
      {A : Type 0} {P : S → Type 0} {Q : A → S → Type 0} {R : S → Type 0} {x : Action S A}
      (y : Action S A) (test : Bool)
      → ((s : S) → P s → test ≡ true)
      → Triple E P x Q R
      → Triple E P (if test then x else y) Q R
  if_when y true h t = t
  if_when y false h t = record { holds = λ s p. absurd (false_is_true (h s p)) }

  pub weaken_lem :
      {A : Type 0} {P P' : S → Type 0} {Q Q' : A → S → Type 0} {R R' : S → Type 0}
      {action : Action S A}
      → Triple E P action Q R
      → ((s : S) → P' s → P s)
      → ((a : A) (s : S) → Q a s → Q' a s)
      → ((s : S) → R s → R' s)
      → Triple E P' action Q' R'
  weaken_lem {Q = Q} {Q' = Q'} {R = R} {R' = R'} {action = action} t before after failed = record {
    holds = λ s p.
        let (effects, ends) = t.holds s (before s p) in
        (effects, after_lem (action s).2 (action s).0 ends after failed);
  }

  pub if_lem :
      {A : Type 0} {P : S → Type 0} {Q : A → S → Type 0} {R : S → Type 0} {x y : Action S A}
      (test : Bool)
      → Triple E P x Q R
      → Triple E P y Q R
      → Triple E P (if test then x else y) Q R
  if_lem true t u = t
  if_lem false t u = u
