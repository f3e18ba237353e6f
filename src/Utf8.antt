-- ===== src/Utf8.antt =====
-- unicode/utf8: the runes of a byte text, as `range` yields them, and their encoding.
pub mod Roundtrip
use clientkit.Prelude.{
  ℕ, zero, suc, ◌+◌, ◌-◌, ◌*◌, ◌/◌, ◌%◌, Bool, ◌&&◌, ◌||◌, not, List, [], ◌∷◌, ◌++◌, ◌==◌, nat_eq,
  leb, ltb, if◌then◌else◌,
}
use clientkit.Text.{Text}

-- utf8.RuneError.
abbrev pub rune_error : ℕ
rune_error = 0xFFFD

unfoldable pub is_continuation : ℕ → Bool
is_continuation b = leb 0x80 b && leb b 0xBF

-- The second byte that a lead byte of three or four bytes allows.
unfoldable pub second_of_three : ℕ → ℕ → Bool
second_of_three a b =
    if a == 0xE0
    then leb 0xA0 b && leb b 0xBF
    else if a == 0xED
    then leb 0x80 b && leb b 0x9F
    else leb 0x80 b && leb b 0xBF

unfoldable pub second_of_four : ℕ → ℕ → Bool
second_of_four a b =
    if a == 0xF0
    then leb 0x90 b && leb b 0xBF
    else if a == 0xF4
    then leb 0x80 b && leb b 0x8F
    else leb 0x80 b && leb b 0xBF

abbrev pub byte_at : ℕ → Text → ℕ
byte_at i [] = 0
byte_at zero (a ∷ s) = a
byte_at (suc i) (a ∷ s) = byte_at i s

-- utf8.DecodeRune on a lead byte and what follows it: the rune and its size. A byte that is
-- missing reads as 0, which is no continuation byte.
unfoldable pub decode_rune : ℕ → Text → ℕ × ℕ
unfolding is_continuation second_of_three second_of_four
decode_rune a s =
    let b = byte_at 0 s in
    let c = byte_at 1 s in
    let d = byte_at 2 s in
    if ltb a 0x80
    then (a, 1)
    else if leb 0xC2 a && leb a 0xDF && is_continuation b
    then (a % 0x20 * 0x40 + b % 0x40, 2)
    else if leb 0xE0 a && leb a 0xEF && second_of_three a b && is_continuation c
    then (a % 0x10 * 0x1000 + b % 0x40 * 0x40 + c % 0x40, 3)
    else if leb 0xF0 a && leb a 0xF4 && second_of_four a b && is_continuation c && is_continuation d
    then (a % 0x08 * 0x40000 + b % 0x40 * 0x1000 + c % 0x40 * 0x40 + d % 0x40, 4)
    else (rune_error, 1)

-- `for _, value := range text`; `skip` bytes belong to the rune before.
unfoldable pub runes_from : ℕ → Text → List ℕ
runes_from skip [] = []
runes_from (suc skip) (a ∷ s) = runes_from skip s
runes_from zero (a ∷ s) = let (r, size) = decode_rune a s in r ∷ runes_from (size - 1) s

unfoldable pub runes : Text → List ℕ
unfolding runes_from decode_rune
runes s = runes_from 0 s

-- The runes that have an encoding: no surrogates, nothing past U+10FFFF.
unfoldable pub is_scalar : ℕ → Bool
is_scalar r = ltb r 0xD800 || (leb 0xE000 r && leb r 0x10FFFF)

-- strings.Builder.WriteRune; what has no encoding is written as U+FFFD.
unfoldable pub encode_rune : ℕ → Text
unfolding is_scalar
encode_rune r =
    if ltb r 0x80
    then r ∷ []
    else if ltb r 0x800
    then (0xC0 + r / 0x40) ∷ (0x80 + r % 0x40) ∷ []
    else if not (is_scalar r)
    then 0xEF ∷ 0xBF ∷ 0xBD ∷ []
    else if ltb r 0x10000
    then (0xE0 + r / 0x1000) ∷ (0x80 + r / 0x40 % 0x40) ∷ (0x80 + r % 0x40) ∷ []
    else (0xF0 + r / 0x40000)
      ∷ (0x80 + r / 0x1000 % 0x40)
      ∷ (0x80 + r / 0x40 % 0x40)
      ∷ (0x80 + r % 0x40)
      ∷ []

abbrev pub encode : List ℕ → Text
encode [] = []
encode (r ∷ rs) = encode_rune r ++ encode rs

-- utf8.RuneLen, at a rune that has an encoding.
unfoldable pub rune_len : ℕ → ℕ
rune_len r = if ltb r 0x80 then 1 else if ltb r 0x800 then 2 else if ltb r 0x10000 then 3 else 4
