-- ===== src/Ui/Layout.antt =====
-- The rows of the services in appytizer-ui/main.cpp: in which order, and at which positions.
use appytizer_app_server.Base.{
  ℕ, ◌+◌, ◌≤◌, ◌≡◌, refl, ap, Bool, true, false, List, [], ◌∷◌, ◌++◌, map, arith, Text, codes,
  text_eq, text_eq_refl, text_mem, if◌then◌else◌,
}
use appytizer_app_server.Ui.Rows.{ServiceRow}
use appytizer_app_server.Ui.Actions.{Effect, request, autostart_entry}
use appytizer_app_server.Ui.App.{App}
pub mod Rows
pub mod Populated
pub mod Kept
pub mod Viewed
pub mod Runs

-- Each row's identifier and position.
abbrev pub frame : List ServiceRow → List (Text × ℕ)
frame rows = map (λ (row : ServiceRow). (row.id, row.y)) rows

-- From the top on, no row overlaps the one before it, and the last one ends above the bottom; a row
-- is 46 high.
unfoldable pub IsLaidOut : ℕ → List (Text × ℕ) → ℕ → Type 0
IsLaidOut top [] bottom = top ≤ bottom
IsLaidOut top ((id, y) ∷ rows) bottom = (top ≤ y) × IsLaidOut (y + 46) rows bottom

abbrev pub ids : List (Text × ℕ) → List Text
ids rows = map (λ (row : Text × ℕ). row.0) rows

-- The first list is the second with items left out.
abbrev pub is_sublist : List Text → List Text → Bool
is_sublist [] ys = true
is_sublist (x ∷ xs) [] = false
is_sublist (x ∷ xs) (y ∷ ys) =
    let without = is_sublist (x ∷ xs) ys in if text_eq x y then is_sublist xs ys else without

abbrev pub service_order : List Text
service_order = codes "dns" ∷ codes "nginx" ∷ codes "php" ∷ codes "mysql" ∷ codes "postgres" ∷ []

-- The rows stand below one another, in the order of the view, each service at most once.
unfoldable pub InPlace : List ServiceRow → Type 0
unfolding IsLaidOut
InPlace rows =
    (bottom : ℕ) × IsLaidOut 150 (frame rows) bottom
    × (is_sublist (ids (frame rows)) service_order ≡ true)

abbrev pub served_commands : List Text
served_commands =
    codes "service.list"
    ∷ codes "sites.list"
    ∷ codes "tls.status"
    ∷ codes "config.get"
    ∷ codes "config.set"
    ∷ codes "sites.rescan"
    ∷ codes "service.rescan"
    ∷ codes "dns.start"
    ∷ codes "dns.stop"
    ∷ codes "service.start"
    ∷ codes "service.stop"
    ∷ codes "service.set_version"
    ∷ codes "stop_all"
    ∷ []

-- A request has one of the commands; the entry for the logon is no request.
unfoldable pub is_served : Effect → Bool
is_served (request command params continuation) = text_mem command served_commands
is_served (autostart_entry enabled) = true

abbrev pub IsServed : Effect → Type 0
IsServed effect = is_served effect ≡ true

pub IsLaidOut-append :
    (rows : List (Text × ℕ)) (id : Text) (top y : ℕ)
    → IsLaidOut top rows y
    → IsLaidOut top (rows ++ ((id, y) ∷ [])) (y + 46)
unfolding IsLaidOut
IsLaidOut-append [] id top y h = (h, omega arith)
IsLaidOut-append ((other, at) ∷ rows) id top y (first, rest) =
    (first, IsLaidOut-append rows id (at + 46) y rest)

pub IsLaidOut-below :
    (rows : List (Text × ℕ)) (top bottom lower : ℕ)
    → bottom ≤ lower
    → IsLaidOut top rows bottom
    → IsLaidOut top rows lower
unfolding IsLaidOut
IsLaidOut-below [] top bottom lower below h = omega arith
IsLaidOut-below ((id, y) ∷ rows) top bottom lower below (first, rest) =
    (first, IsLaidOut-below rows (y + 46) bottom lower below rest)

-- Leaving out what comes last.
pub is_sublist-append :
    (xs ys zs : List Text) → is_sublist xs ys ≡ true → is_sublist xs (ys ++ zs) ≡ true
is_sublist-append [] ys zs h = refl
is_sublist-append (x ∷ xs) [] zs h = absurd cc
is_sublist-append (x ∷ xs) (y ∷ ys) zs h =
    ground (arith, is_sublist-append xs ys zs, is_sublist-append (x ∷ xs) ys zs)

pub is_sublist-append_both :
    (xs ys : List Text) (z : Text)
    → is_sublist xs ys ≡ true
    → is_sublist (xs ++ (z ∷ [])) (ys ++ (z ∷ [])) ≡ true
is_sublist-append_both [] [] z h = ground (arith, text_eq_refl z)
is_sublist-append_both [] (y ∷ ys) z h =
    ground (arith, text_eq_refl z, is_sublist-append_both [] ys z)
is_sublist-append_both (x ∷ xs) [] z h = absurd cc
is_sublist-append_both (x ∷ xs) (y ∷ ys) z h =
    ground (arith, is_sublist-append_both xs ys z, is_sublist-append_both (x ∷ xs) ys z)
