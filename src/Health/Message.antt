-- ===== src/Health/Message.antt =====
-- boundedHealthMessage and sanitizeHealthMessageRune of health.go, with the parts of packages
-- unicode and unicode/utf8 that they call.
pub mod Clean
use mathlib.Core.List.{reverse}
use clientkit.Prelude.{
  ℕ, zero, suc, ◌+◌, ◌-◌, Bool, ◌&&◌, ◌||◌, true, false, List, [], ◌∷◌, ◌++◌, ◌==◌, nat_eq, leb,
  ltb, length, if◌then◌else◌,
}
use clientkit.Text.{Text}
use clientkit.Utf8.{runes, encode, encode_rune, decode_rune, is_continuation, rune_len}

abbrev pub default_max_health_message_bytes : ℕ
default_max_health_message_bytes = 256

unfoldable pub in_ranges : List (ℕ × ℕ) → ℕ → Bool
in_ranges [] r = false
in_ranges ((lo, hi) ∷ ranges) r = (leb lo r && leb r hi) || in_ranges ranges r

unfoldable pub is_control : ℕ → Bool
is_control r = leb r 0x1F || (leb 0x7F r && leb r 0x9F)

-- unicode.Cf.
unfoldable pub format_ranges : List (ℕ × ℕ)
format_ranges =
    (0xAD, 0xAD)
    ∷ (0x600, 0x605)
    ∷ (0x61C, 0x61C)
    ∷ (0x6DD, 0x6DD)
    ∷ (0x70F, 0x70F)
    ∷ (0x890, 0x891)
    ∷ (0x8E2, 0x8E2)
    ∷ (0x180E, 0x180E)
    ∷ (0x200B, 0x200F)
    ∷ (0x202A, 0x202E)
    ∷ (0x2060, 0x2064)
    ∷ (0x2066, 0x206F)
    ∷ (0xFEFF, 0xFEFF)
    ∷ (0xFFF9, 0xFFFB)
    ∷ (0x110BD, 0x110BD)
    ∷ (0x110CD, 0x110CD)
    ∷ (0x13430, 0x1343F)
    ∷ (0x1BCA0, 0x1BCA3)
    ∷ (0x1D173, 0x1D17A)
    ∷ (0xE0001, 0xE0001)
    ∷ (0xE0020, 0xE007F)
    ∷ []

-- sanitizeHealthMessageRune keeps the rune; elsewhere it returns -1. unicode.Zl is U+2028 and
-- unicode.Zp is U+2029.
unfoldable pub keeps_rune : ℕ → Bool
unfolding in_ranges format_ranges is_control
keeps_rune r =
    if is_control r || in_ranges format_ranges r || r == 0x2028 || r == 0x2029 then false else true

-- strings.Map(sanitizeHealthMessageRune, message), on the runes.
unfoldable pub kept_runes : List ℕ → List ℕ
kept_runes [] = []
kept_runes (r ∷ rs) = let rest = kept_runes rs in if keeps_rune r then r ∷ rest else rest

-- The walk back of utf8.DecodeLastRuneInString: `suffix` has been passed, `before` is the text
-- before it in reverse.
unfoldable pub size_back : ℕ → Text → Text → ℕ
size_back zero suffix before = 1
size_back (suc k) suffix [] = 1
size_back (suc k) suffix (b ∷ before) =
    let rest = size_back k (b ∷ suffix) before in
    if is_continuation b
    then rest
    else if (decode_rune b suffix).1 == length suffix + 1
    then length suffix + 1
    else 1

-- The size that utf8.DecodeLastRuneInString returns, of a text given in reverse.
unfoldable pub last_rune_size : Text → ℕ
unfolding size_back
last_rune_size [] = 0
last_rune_size (a ∷ before) = if ltb a 0x80 then 1 else size_back 3 (a ∷ []) before

abbrev pub take : ℕ → Text → Text
take zero s = []
take (suc n) [] = []
take (suc n) (a ∷ s) = a ∷ take n s

-- for len(message) > DefaultMaxHealthMessageBytes { … }
unfoldable pub drop_last_runes : ℕ → Text → Text
drop_last_runes zero message = message
drop_last_runes (suc fuel) message =
    let size = last_rune_size (reverse message) in
    let rest = drop_last_runes fuel (take (length message - size) message) in
    if ltb default_max_health_message_bytes (length message)
    then (if size == 0 then [] else rest)
    else message

-- The loop of the second half; `written` is bounded.Len().
unfoldable pub fill : ℕ → List ℕ → Text
fill written [] = []
fill written (value ∷ values) =
    let skipped = fill written values in
    let rest = fill (written + rune_len value) values in
    if keeps_rune value
    then (if ltb default_max_health_message_bytes (written + rune_len value)
        then []
        else encode_rune value ++ rest)
    else skipped

unfoldable pub bounded_health_message : Text → Text
unfolding kept_runes drop_last_runes fill keeps_rune last_rune_size
bounded_health_message message =
    let mapped = encode (kept_runes (runes message)) in
    if leb (length message) default_max_health_message_bytes
    then drop_last_runes (length mapped) mapped
    else fill 0 (runes message)
