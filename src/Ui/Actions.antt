-- ===== src/Ui/Actions.antt =====
-- How the callbacks of appytizer-ui/main.cpp run: they change a state, ask for effects, and may throw.
use appytizer_app_server.Base.{Bool, true, false, List, [], ◌∷◌, ◌++◌, Option, none, some, Text}

-- UiConfig.
pub record UiConfig : Type 0 where
  pub root_folder : Text
  pub https_enabled : Bool
  pub run_minimized : Bool
  pub autostart : Bool

-- What is done with the answer to a request: the callbacks that are passed to PipeClient::request.
pub data Continuation : Type 0 where
  apply_command after_rescan after_config after_tls after_sites after_repair after_stop :
      Continuation
  after_services : Bool → Continuation
  after_save : UiConfig → Continuation

-- A request to the Engine with its parameters as text, or the entry that starts the program at logon.
pub data Effect : Type 0 where
  request : Text → Text → Continuation → Effect
  autostart_entry : Bool → Effect

-- `thrown` carries what() of the exception.
pub data Outcome (A : Type 0) : Type 0 where
  thrown : Text → Outcome A
  returned : A → Outcome A

abbrev pub Action : Type 0 → Type 0 → Type 0
Action S A = S → S × List Effect × Outcome A

module _ {S : Type 0} where
  unfoldable pub pure : {A : Type 0} → A → Action S A
  pure a s = (s, [], returned a)

  unfoldable pub throw : {A : Type 0} → Text → Action S A
  throw what s = (s, [], thrown what)

  abbrev pub then_run : {A B : Type 0} → List Effect → Outcome A → (A → Action S B) → Action S B
  then_run before (thrown what) next s = (s, before, thrown what)
  then_run before (returned a) next s =
      let (s', effects, outcome) = next a s in (s', before ++ effects, outcome)

  infixl 2 ◌>>=◌
  unfoldable pub ◌>>=◌ : {A B : Type 0} → Action S A → (A → Action S B) → Action S B
  ◌>>=◌ action next s = let (s', effects, outcome) = action s in then_run effects outcome next s'

  infixl 2 ◌>>◌
  abbrev pub ◌>>◌ : {A B : Type 0} → Action S A → Action S B → Action S B
  ◌>>◌ action next = ◌>>=◌ action (λ a. next)

  unfoldable pub get : Action S S
  get s = (s, [], returned s)

  unfoldable pub modify : (S → S) → Action S Unit
  modify change s = (change s, [], returned tt)

  unfoldable pub ask : Effect → Action S Unit
  ask effect s = (s, effect ∷ [], returned tt)

  abbrev pub handled : List Effect → Outcome Unit → (Text → Action S Unit) → Action S Unit
  handled before (returned a) handler s = (s, before, returned a)
  handled before (thrown what) handler s =
      let (s', effects, outcome) = handler what s in (s', before ++ effects, outcome)

  -- `try { action } catch (...) { handler }`
  unfoldable pub catch : Action S Unit → (Text → Action S Unit) → Action S Unit
  catch action handler s =
      let (s', effects, outcome) = action s in handled effects outcome handler s'

  abbrev pub when : Bool → Action S Unit → Action S Unit
  when true action = action
  when false action = pure tt

  abbrev pub for_each : {A : Type 0} → List A → (A → Action S Unit) → Action S Unit
  for_each [] body = pure tt
  for_each (x ∷ xs) body = ◌>>◌ (body x) (for_each xs body)

-- What an option gives; `what` where it is an exception.
abbrev pub or_throw : {S A : Type 0} → Text → Option A → Action S A
or_throw what none = throw what
or_throw what (some a) = pure a
