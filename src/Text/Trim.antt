-- ===== src/Text/Trim.antt =====
-- strings.TrimSpace on UTF-8 bytes: the white space of Unicode, at both ends.
use mathlib.Core.List.{reverse, reverse-reverse}
use clientkit.Prelude.{
  ℕ, zero, suc, ◌-◌, ◌≡◌, refl, Bool, ◌&&◌, ◌||◌, List, [], ◌∷◌, ◌==◌, nat_eq, leb, if◌then◌else◌,
  arith, ◌<◌,
}

is_ascii_space : ℕ → Bool
is_ascii_space c = (leb 9 c && leb c 13) || c == 32

-- U+0085 and U+00A0.
is_two_byte_space : ℕ → ℕ → Bool
is_two_byte_space a b = a == 0xC2 && (b == 0x85 || b == 0xA0)

-- U+1680, U+2000 to U+200A, U+2028, U+2029, U+202F, U+205F and U+3000.
is_three_byte_space : ℕ → ℕ → ℕ → Bool
is_three_byte_space a b c =
    (a == 0xE1 && b == 0x9A && c == 0x80)
    || (a == 0xE2
        && b == 0x80
        && ((leb 0x80 c && leb c 0x8A) || c == 0xA8 || c == 0xA9 || c == 0xAF))
    || (a == 0xE2 && b == 0x81 && c == 0x9F)
    || (a == 0xE3 && b == 0x80 && c == 0x80)

-- The bytes of the white space at the head; 0 if there is none.
space_size : List ℕ → ℕ
unfolding is_ascii_space is_two_byte_space is_three_byte_space
space_size [] = 0
space_size (a ∷ []) = if is_ascii_space a then 1 else 0
space_size (a ∷ b ∷ []) = if is_ascii_space a then 1 else if is_two_byte_space a b then 2 else 0
space_size (a ∷ b ∷ c ∷ s) =
    if is_ascii_space a
    then 1
    else if is_two_byte_space a b
    then 2
    else if is_three_byte_space a b c
    then 3
    else 0

-- The same at the end of a text that is given in reverse.
last_space_size : List ℕ → ℕ
unfolding is_ascii_space is_two_byte_space is_three_byte_space
last_space_size [] = 0
last_space_size (c ∷ []) = if is_ascii_space c then 1 else 0
last_space_size (c ∷ b ∷ []) =
    if is_ascii_space c then 1 else if is_two_byte_space b c then 2 else 0
last_space_size (c ∷ b ∷ a ∷ s) =
    if is_ascii_space c
    then 1
    else if is_two_byte_space b c
    then 2
    else if is_three_byte_space a b c
    then 3
    else 0

-- Drops white space from the head, `skip` bytes of which are known to be part of it.
strip : (List ℕ → ℕ) → ℕ → List ℕ → List ℕ
strip size skip [] = []
strip size (suc skip) (a ∷ s) = strip size skip s
strip size zero (a ∷ s) =
    let n = size (a ∷ s) in let rest = strip size (n - 1) s in if n == 0 then a ∷ s else rest

unfoldable pub trim_space : List ℕ → List ℕ
unfolding strip space_size last_space_size
trim_space s = reverse (strip last_space_size 0 (reverse (strip space_size 0 s)))

strip_id : (size : List ℕ → ℕ) (s : List ℕ) → size s ≡ 0 → strip size 0 s ≡ s
unfolding strip
strip_id size [] h = refl
strip_id size (a ∷ s) h = ground arith

-- A printable ASCII byte at the head, or at the end, is no white space.
abbrev pub Printable : List ℕ → Type 0
Printable [] = Unit
Printable (c ∷ s) = (32 < c) × (c < 128)

space_size-Printable : (s : List ℕ) → Printable s → space_size s ≡ 0
unfolding space_size
space_size-Printable [] h = refl
space_size-Printable (a ∷ []) h = ground arith
space_size-Printable (a ∷ b ∷ []) h = ground arith
space_size-Printable (a ∷ b ∷ c ∷ s) h = ground arith

last_space_size-Printable : (s : List ℕ) → Printable s → last_space_size s ≡ 0
unfolding last_space_size
last_space_size-Printable [] h = refl
last_space_size-Printable (a ∷ []) h = ground arith
last_space_size-Printable (a ∷ b ∷ []) h = ground arith
last_space_size-Printable (a ∷ b ∷ c ∷ s) h = ground arith

pub trim_space_id : (s : List ℕ) → Printable s → Printable (reverse s) → trim_space s ≡ s
unfolding trim_space
trim_space_id s front back = rw (
  strip_id space_size s (space_size-Printable s front),
  strip_id last_space_size (reverse s) (last_space_size-Printable (reverse s) back),
  reverse-reverse,
)
