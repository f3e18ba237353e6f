-- ===== src/Http/Header.antt =====
-- http.Header, and the names of header fields: the tests of context_headers.go, and what the code
-- takes from net/textproto and strings.
pub mod Names
pub mod Spellings
use clientkit.Prelude.{
  ℕ, ◌+◌, ◌-◌, Bool, true, false, not, ◌&&◌, ◌||◌, Option, none, some, List, [], ◌∷◌, map, ◌==◌,
  nat_eq, leb, every, if◌then◌else◌,
}
use clientkit.Text.{Text, text_eq, codes}
use clientkit.Utf8.{runes}
use clientkit.Dict.{Dict, insert}

abbrev pub Header : Type 0
Header = Dict Text (List Text)

abbrev pub is_lower : ℕ → Bool
is_lower c = leb b'a' c && leb c b'z'

abbrev pub is_upper : ℕ → Bool
is_upper c = leb b'A' c && leb c b'Z'

unfoldable pub http_token_byte : ℕ → Bool
http_token_byte c =
    is_lower c
    || is_upper c
    || (leb b'0' c && leb c b'9')
    || c == b'!'
    || (leb b'#' c && leb c 39)
    || c == b'*'
    || c == b'+'
    || c == b'-'
    || c == b'.'
    || c == b'^'
    || c == b'_'
    || c == b'`'
    || c == b'|'
    || c == b'~'

unfoldable pub valid_http_field_name : Text → Bool
valid_http_field_name [] = false
valid_http_field_name (c ∷ s) = every http_token_byte (c ∷ s)

abbrev pub lower : ℕ → ℕ
lower c = if is_upper c then c + 32 else c

abbrev pub upper : ℕ → ℕ
upper c = if is_lower c then c - 32 else c

-- textproto.CanonicalMIMEHeaderKey: upper case at the start and after each dash, lower case
-- elsewhere; a key that is no token stays as it is.
unfoldable pub canonical_from : Bool → Text → Text
canonical_from first [] = []
canonical_from first (c ∷ s) = (if first then upper c else lower c) ∷ canonical_from (c == b'-') s

unfoldable pub canonical_mime_header_key : Text → Text
canonical_mime_header_key key = if every http_token_byte key then canonical_from true key else key

-- The ASCII rune that a rune folds to, if there is one, in lower case.
abbrev pub fold_rune : ℕ → ℕ
fold_rune r = if r == 0x212A then b'k' else if r == 0x17F then b's' else lower r

abbrev pub folded : Text → List ℕ
folded s = map fold_rune (runes s)

-- strings.EqualFold where one of the texts is ASCII, as the name of a binding is.
unfoldable pub equal_fold : Text → Text → Bool
equal_fold s t = folded s == folded t

-- Header.Set of a name in canonical form.
abbrev pub set_header : Text → Text → Header → Header
set_header name value headers = insert name (value ∷ []) headers

-- headerIsPresent.
unfoldable pub header_is_present : Header → Text → Bool
header_is_present [] name = false
header_is_present ((existing, values) ∷ headers) name =
    equal_fold existing name || header_is_present headers name

-- The loop of setContextHeader, which deletes other spellings of the name.
unfoldable pub delete_spellings : Text → Header → Header
delete_spellings name [] = []
delete_spellings name ((existing, values) ∷ headers) =
    let rest = delete_spellings name headers in
    if not (existing == name) && equal_fold existing name then rest else (existing, values) ∷ rest

unfoldable pub set_context_header : Header → Text → Text → Header
set_context_header headers name value = set_header name value (delete_spellings name headers)
