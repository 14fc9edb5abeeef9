-- ===== src/Ui/Widgets.antt =====
-- What the widgets of appytizer-ui/main.cpp show: texts in UTF-8, colours, menus.
use appytizer_app_server.Base.{ℕ, Bool, List, [], ◌∷◌, Text}

-- The named colours of the code.
pub data Color : Type 0 where
  text_color muted link ready attention fault surface control : Color

pub record Label : Type 0 where
  pub text : Text
  pub color : Color

abbrev pub label : Text → Color → Label
label text color = record { text = text; color = color }

-- A circle, filled or not, and a space.
abbrev pub bullet : Text
bullet = 0xe2 ∷ 0x97 ∷ 0x8f ∷ 32 ∷ []

abbrev pub hollow : Text
hollow = 0xe2 ∷ 0x97 ∷ 0x8b ∷ 32 ∷ []

-- An ellipsis, and a dot between spaces.
abbrev pub ellipsis : Text
ellipsis = 0xe2 ∷ 0x80 ∷ 0xa6 ∷ []

abbrev pub dot : Text
dot = 32 ∷ 0xc2 ∷ 0xb7 ∷ 32 ∷ []

-- The marks of a site: a cross, a tick, a warning; an arrow, and one that is struck out.
abbrev pub cross : Text
cross = 0xe2 ∷ 0x9c ∷ 0x95 ∷ []

abbrev pub tick : Text
tick = 0xe2 ∷ 0x9c ∷ 0x93 ∷ []

abbrev pub warning : Text
warning = 0xe2 ∷ 0x9a ∷ 0xa0 ∷ []

abbrev pub arrow : Text
arrow = 0xe2 ∷ 0x86 ∷ 0x92 ∷ []

abbrev pub struck_arrow : Text
struck_arrow = 0xe2 ∷ 0x86 ∷ 0x9b ∷ []

-- A menu of labels, with the one that is chosen.
pub record Choice : Type 0 where
  pub items : List Text
  pub value : ℕ
  pub active : Bool
