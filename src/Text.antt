-- ===== src/Text.antt =====
-- Go strings as lists of bytes, and what the code takes from package strings.
pub mod Trim
pub mod Order
use Prim.Native.Char.{code}
use Prim.Native.String.{String}
use clientkit.Prelude.{
  ℕ, ◌≡◌, ◌↔◌, Bool, false, true, ◌&&◌, ◌||◌, List, [], ◌∷◌, ◌++◌, Eq, ◌==◌, nat_eq, list_beq,
  list_beq_iff, arith, Bool-cases, inl, inr, refl, ap, Option, none, some, ltb, if◌then◌else◌,
}

abbrev pub Text : Type 0
Text = List ℕ

instance abbrev pub text_eq : Eq Text
text_eq = record { beq = list_beq; beq_iff = list_beq_iff }

-- A literal of the source, which is ASCII.
abbrev pub codes : String → Text
codes String.[] = []
codes (String.◌∷◌ c s) = code c ∷ codes s

-- strings.Contains(s, "..").
unfoldable pub contains_dots : Text → Bool
contains_dots [] = false
contains_dots (a ∷ []) = false
contains_dots (a ∷ b ∷ s) = (a == b'.' && b == b'.') || contains_dots (b ∷ s)

pub contains_dots_complete : (u v : Text) → contains_dots (u ++ b'.' ∷ b'.' ∷ v) ≡ true
unfolding contains_dots
contains_dots_complete [] v = refl
contains_dots_complete (a ∷ []) v = ground (arith, contains_dots_complete [] v)
contains_dots_complete (a ∷ b ∷ u) v = ground (arith, contains_dots_complete (b ∷ u) v)

pub contains_dots_sound :
    (s : Text) → contains_dots s ≡ true → (u : Text) × (v : Text) × (s ≡ u ++ b'.' ∷ b'.' ∷ v)
unfolding contains_dots
contains_dots_sound [] h = cc
contains_dots_sound (a ∷ []) h = cc
contains_dots_sound (a ∷ b ∷ s) h = elim (Bool-cases (a == b'.' && b == b'.')) [
  | inl e ↦ ([], s, ground arith)
  | inr e ↦ let (u, v, p) = contains_dots_sound (b ∷ s) (ground arith) in (a ∷ u, v, ap (◌∷◌ a) p)
]

-- The byte order of Go's `<` on strings.
unfoldable pub text_ltb : Text → Text → Bool
text_ltb [] [] = false
text_ltb [] (b ∷ t) = true
text_ltb (a ∷ s) [] = false
text_ltb (a ∷ s) (b ∷ t) = ltb a b || (a == b && text_ltb s t)
