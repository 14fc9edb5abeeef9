-- ===== src/Base/Texts.antt =====
-- std::string as the list of its bytes: literals, equality, prefixes, suffixes, search, lower case.
use Prim.Native.Char.{code}
use Prim.Native.Nat.{ℕ, suc, ◌+◌, ◌-◌}
use Prim.Native.String.{String}
use mathlib.Core.Path.{◌≡◌, refl}
use mathlib.Core.Logic.{◌↔◌}
use mathlib.Core.Bool.{Bool, true, false, ◌&&◌, ◌||◌}
use mathlib.Core.List.{List, [], ◌∷◌, ◌++◌, map}
use mathlib.Core.Option
use mathlib.Core.Option.{Option, none, some}
use native.Mathlib.Omega.{arith}
use appytizer_app_server.Base.Tests.{leb, ◌==◌, if◌then◌else◌}
use appytizer_app_server.Base.Lists.{length, drop, length-append, drop-append}

abbrev pub Text : Type 0
Text = List ℕ

-- The code points of a literal: its bytes, since every literal of the program is ASCII.
abbrev pub codes : String → Text
codes String.[] = []
codes (String.◌∷◌ c s) = code c ∷ codes s

-- `==` on std::string.
abbrev pub text_eq : Text → Text → Bool
text_eq [] [] = true
text_eq [] (y ∷ ys) = false
text_eq (x ∷ xs) [] = false
text_eq (x ∷ xs) (y ∷ ys) = (x == y) && text_eq xs ys

pub text_eq_iff : (s t : Text) → (text_eq s t ≡ true) ↔ (s ≡ t)
text_eq_iff [] [] = (λ _. refl, λ _. refl)
text_eq_iff [] (y ∷ ys) = (λ h. cc, λ h. cc)
text_eq_iff (x ∷ xs) [] = (λ h. cc, λ h. cc)
text_eq_iff (x ∷ xs) (y ∷ ys) = ground (arith, text_eq_iff xs ys)

pub text_eq_refl : (s : Text) → text_eq s s ≡ true
text_eq_refl s = (text_eq_iff s s).1 refl

abbrev pub text_mem : Text → List Text → Bool
text_mem s [] = false
text_mem s (t ∷ ts) = text_eq s t || text_mem s ts

-- std::string_view::starts_with, with the prefix first.
abbrev pub starts_with : Text → Text → Bool
starts_with [] s = true
starts_with (x ∷ xs) [] = false
starts_with (x ∷ xs) (y ∷ ys) = (x == y) && starts_with xs ys

-- std::string_view::ends_with, with the suffix first.
abbrev pub ends_with : Text → Text → Bool
ends_with suffix s =
    leb (length suffix) (length s) && text_eq (drop (length s - length suffix) s) suffix

-- std::string::find: the position of the first occurrence.
abbrev pub find : Text → Text → Option ℕ
find pattern [] = if starts_with pattern [] then some 0 else none
find pattern (x ∷ xs) =
    if starts_with pattern (x ∷ xs) then some 0 else Option.map suc (find pattern xs)

-- std::tolower of the "C" locale on one byte.
unfoldable pub lower : ℕ → ℕ
lower c = if leb b'A' c && leb c b'Z' then c + 32 else c

abbrev pub lowercase : Text → Text
lowercase = map lower

pub starts_with-append : (p s : Text) → starts_with p (p ++ s) ≡ true
starts_with-append [] s = refl
starts_with-append (x ∷ p) s = ground (arith, starts_with-append p s)

drop-append_of_length : (s t : Text) → drop (length (s ++ t) - length t) (s ++ t) ≡ t
drop-append_of_length s t =
    let e : length (s ++ t) - length t ≡ length s = omega (arith, length-append s t) in
    rw e (drop-append s t)

pub ends_with-append : (s t : Text) → ends_with t (s ++ t) ≡ true
ends_with-append s t =
    rw (drop-append_of_length s t) (ground (arith, length-append s t, (text_eq_iff t t).1 refl))

pub ends_with-append_other :
    (s t u : Text) → length u ≡ length t → text_eq t u ≡ false → ends_with u (s ++ t) ≡ false
ends_with-append_other s t u same other =
    rw (same, drop-append_of_length s t) (ground (arith, other))
