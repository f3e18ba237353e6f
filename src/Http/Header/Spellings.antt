-- ===== src/Http/Header/Spellings.antt =====
-- What setContextHeader of httpclient/context_headers.go leaves in a header.
use clientkit.Prelude.{
  ◌≡◌, ◌↔◌, refl, ◌∙◌, true, false, ◌&&◌, not, none, some, List, [], ◌∷◌, ◌==◌, arith,
  if◌then◌else◌, list_beq_iff, nat_eq,
}
use clientkit.Text.{Text, text_eq}
use clientkit.Dict.{lookup, insert, lookup-insert}
use clientkit.Http.Header.{
  Header, folded, equal_fold, header_is_present, delete_spellings, set_context_header,
}

pub equal_fold_iff : (s t : Text) → (equal_fold s t ≡ true) ↔ (folded s ≡ folded t)
unfolding equal_fold
equal_fold_iff s t = list_beq_iff (folded s) (folded t)

lookup-delete_spellings :
    (name key : Text) (headers : Header)
    → lookup key (delete_spellings name headers)
      ≡ (if not (key == name) && equal_fold key name then none else lookup key headers)
unfolding delete_spellings lookup
lookup-delete_spellings name key [] = ground arith
lookup-delete_spellings name key ((existing, values) ∷ headers) =
    ground (arith, text_eq.beq_iff existing key, lookup-delete_spellings name key headers)

-- Setting a header leaves its value under the name, and nothing under another spelling.
pub lookup-set_context_header :
    (name value key : Text) (headers : Header)
    → lookup key (set_context_header headers name value) ≡ (
        if name == key
        then some (value ∷ [])
        else if equal_fold key name
        then none
        else lookup key headers)
unfolding set_context_header
lookup-set_context_header name value key headers = ground (
  arith,
  lookup-insert name key (value ∷ []) (delete_spellings name headers),
  lookup-delete_spellings name key headers,
  text_eq.beq_iff name key,
  text_eq.beq_iff key name,
)

present-delete_spellings :
    (name other : Text) (headers : Header)
    → equal_fold name other ≡ false
    → header_is_present (delete_spellings name headers) other ≡ header_is_present headers other
unfolding delete_spellings header_is_present
present-delete_spellings name other [] h = refl
present-delete_spellings name other ((existing, values) ∷ headers) h = ground (
  arith,
  present-delete_spellings name other headers h,
  equal_fold_iff existing name,
  equal_fold_iff existing other,
  equal_fold_iff name other,
)

present-insert :
    (name other : Text) (values : List Text) (headers : Header)
    → equal_fold name other ≡ false
    → header_is_present (insert name values headers) other ≡ header_is_present headers other
unfolding insert header_is_present
present-insert name other values [] h = ground arith
present-insert name other values ((existing, old) ∷ headers) h =
    ground (arith, present-insert name other values headers h, text_eq.beq_iff existing name)

-- Setting a header does not change whether another one is there.
pub present-set_context_header :
    (name value other : Text) (headers : Header)
    → equal_fold name other ≡ false
    → header_is_present (set_context_header headers name value) other
      ≡ header_is_present headers other
unfolding set_context_header
present-set_context_header name value other headers h =
    present-insert name other (value ∷ []) (delete_spellings name headers) h
    ∙ present-delete_spellings name other headers h
