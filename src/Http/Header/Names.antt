-- ===== src/Http/Header/Names.antt =====
-- Names of header fields: two names of valid fields that differ only in case have one canonical form.
use clientkit.Prelude.{
  ℕ, ◌<◌, ◌≡◌, refl, sym, ap, ◌∙◌, Bool, true, false, [], ◌∷◌, map, All, every, ◌==◌, nat_eq, arith,
  list_beq_iff, subst,
}
use clientkit.Text.{Text, text_eq}
use clientkit.Utf8.{runes, runes_from, decode_rune}
use clientkit.Http.Header.{
  http_token_byte, lower, canonical_from, canonical_mime_header_key, fold_rune, folded, equal_fold,
  valid_http_field_name,
}

abbrev pub IsToken : Text → Type 0
IsToken = All (λ c. http_token_byte c ≡ true)

every-IsToken : (s : Text) → every http_token_byte s ≡ true → IsToken s
every-IsToken [] h = tt
every-IsToken (c ∷ s) h = ground (arith, every-IsToken s)

http_token_byte-ascii : (c : ℕ) → http_token_byte c ≡ true → c < 128
unfolding http_token_byte
http_token_byte-ascii c h = ground arith

runes_from-ascii : (s : Text) → IsToken s → runes_from 0 s ≡ s
unfolding runes_from decode_rune
runes_from-ascii [] h = refl
runes_from-ascii (c ∷ s) h = ground (arith, http_token_byte-ascii c h.0, runes_from-ascii s h.1)

folded_token : (s : Text) → IsToken s → folded s ≡ map lower s
unfolding runes
folded_token s h = ap (map fold_rune) (runes_from-ascii s h) ∙ lowered s h
  where
    lowered : (t : Text) → IsToken t → map fold_rune t ≡ map lower t
    lowered [] h = refl
    lowered (c ∷ t) h = ground (arith, http_token_byte-ascii c h.0, lowered t h.1)

canonical_from-IsToken : (first : Bool) (s : Text) → IsToken s → IsToken (canonical_from first s)
unfolding canonical_from http_token_byte
canonical_from-IsToken first [] h = tt
canonical_from-IsToken true (c ∷ s) h =
    (ground (arith, h.0), canonical_from-IsToken (c == b'-') s h.1)
canonical_from-IsToken false (c ∷ s) h =
    (ground (arith, h.0), canonical_from-IsToken (c == b'-') s h.1)

-- The canonical form is determined by the name in lower case.
canonical_from-lower :
    (first : Bool) (s : Text)
    → canonical_from first (map lower (canonical_from first s)) ≡ canonical_from first s
unfolding canonical_from
canonical_from-lower first [] = refl
canonical_from-lower true (c ∷ s) = ground (arith, canonical_from-lower (c == b'-') s)
canonical_from-lower false (c ∷ s) = ground (arith, canonical_from-lower (c == b'-') s)

pub valid-IsToken : (s : Text) → valid_http_field_name s ≡ true → IsToken s
unfolding valid_http_field_name
valid-IsToken [] h = cc
valid-IsToken (c ∷ s) h = every-IsToken (c ∷ s) h

token-every : (s : Text) → IsToken s → every http_token_byte s ≡ true
token-every [] h = refl
token-every (c ∷ s) h = ground (arith, token-every s h.1)

canonical-token : (s : Text) → IsToken s → canonical_mime_header_key s ≡ canonical_from true s
unfolding canonical_mime_header_key
canonical-token s h = rw (token-every s h) refl

pub canonical-IsToken : (s : Text) → IsToken s → IsToken (canonical_mime_header_key s)
canonical-IsToken s h = subst IsToken (sym (canonical-token s h)) (canonical_from-IsToken true s h)

-- The lower case of a canonical name is what it folds to.
lower-canonical :
    (s : Text)
    → IsToken s
    → canonical_mime_header_key s ≡ canonical_from true (folded (canonical_mime_header_key s))
lower-canonical s h =
    canonical-token s h
    ∙ sym (canonical_from-lower true s)
    ∙ ap (canonical_from true) (
        ap (map lower) (sym (canonical-token s h))
        ∙ sym (folded_token (canonical_mime_header_key s) (canonical-IsToken s h)))

-- Valid names of which the canonical forms differ in case alone have one canonical form.
pub canonical-equal_fold :
    (s t : Text)
    → IsToken s
    → IsToken t
    → equal_fold (canonical_mime_header_key s) (canonical_mime_header_key t) ≡ true
    → canonical_mime_header_key s ≡ canonical_mime_header_key t
unfolding equal_fold
canonical-equal_fold s t hs ht e =
    lower-canonical s hs
    ∙ ap (canonical_from true) (
        (list_beq_iff (folded (canonical_mime_header_key s))
            (folded (canonical_mime_header_key t))).0
          e)
    ∙ sym (lower-canonical t ht)
