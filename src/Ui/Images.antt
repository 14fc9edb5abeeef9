-- ===== src/Ui/Images.antt =====
-- The class AssetCatalog in appytizer-ui/main.cpp: which icon stands for what, and how images are
-- scaled.
use appytizer_app_server.Base.{
  ℕ, zero, suc, ◌+◌, ◌*◌, ◌/◌, Bool, true, false, ◌||◌, ◌&&◌, Option, none, some, Text, codes,
  text_eq, ltb, ◌==◌, if◌then◌else◌,
}
pub mod Scaled

-- The images that may be loaded.
pub data Icon : Type 0 where
  app_icon html_icon nginx_icon php_icon mysql_icon postgres_icon : Icon

abbrev pub service_icon : Text → Option Icon
service_icon id =
    if text_eq id (codes "dns")
    then some app_icon
    else if text_eq id (codes "nginx")
    then some nginx_icon
    else if text_eq id (codes "php")
    then some php_icon
    else if text_eq id (codes "mysql")
    then some mysql_icon
    else if text_eq id (codes "postgres")
    then some postgres_icon
    else none

abbrev pub site_icon : Text → Option Icon
site_icon type =
    if text_eq type (codes "php")
    then some php_icon
    else if text_eq type (codes "html")
    then some html_icon
    else none

abbrev pub max : ℕ → ℕ → ℕ
max a b = if ltb a b then b else a

-- The width and the height of an image.
abbrev pub Size : Type 0
Size = ℕ × ℕ

-- The shorter side, scaled like the longer one to the size, and rounded.
abbrev pub scaled_side : ℕ → ℕ → ℕ → ℕ
scaled_side shorter longer size = max 1 ((shorter * size + longer / 2) / longer)

unfoldable pub target_size : Size → ℕ → Size
target_size (width, height) size =
    if ltb height width
    then (size, scaled_side height width size)
    else if ltb width height
    then (scaled_side width height size, size)
    else (size, size)

-- Each round makes a copy of at most half the size, down to the target; `none` is out of fuel.
unfoldable pub halve : ℕ → Size → Size → Option Size
halve zero target scaled = none
halve (suc fuel) (target_width, target_height) (width, height) =
    let next_width = max target_width (width / 2) in
    let next_height = max target_height (height / 2) in
    let rest = halve fuel (target_width, target_height) (next_width, next_height) in
    if ltb (target_width * 2) width || ltb (target_height * 2) height
    then rest
    else some (width, height)

-- The last copy, unless the size is right already.
abbrev pub last_copy : Size → Size → Size
last_copy (target_width, target_height) (width, height) =
    if (width == target_width) && (height == target_height)
    then (width, height)
    else (target_width, target_height)

abbrev map_size : (Size → Size) → Option Size → Option Size
map_size f none = none
map_size f (some size) = some (f size)

abbrev pub enough : Size → Size → ℕ
enough (target_width, target_height) (width, height) =
    suc (max width target_width + max height target_height)

-- The size of the copy, and of none where the source is empty; `none` is out of fuel.
unfoldable pub copy_scaled : Size → ℕ → Option (Option Size)
unfolding target_size halve
copy_scaled (width, height) size =
    if (width == 0) || (height == 0)
    then some none
    else let target = target_size (width, height) size in
      elim (halve (enough target (width, height)) target (width, height)) [
        | none ↦ none
        | some scaled ↦ some (some (last_copy target scaled))
      ]
