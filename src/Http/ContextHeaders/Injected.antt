-- ===== src/Http/ContextHeaders/Injected.antt =====
-- What Inject of httpclient/context_headers.go does to the headers of a request.
use clientkit.Prelude.{
  ◌≡◌, ◌≢◌, refl, sym, ap, ◌∙◌, subst, true, false, not, Option, none, some, List, [], ◌∷◌, ◌==◌,
  All, All-imp, All-zip, arith, contains, Result, ok, err, >>=-eq-ok, refuse_if, refuse_if-eq-ok,
  Bool-cases, inl, inr,
}
use clientkit.Text.{Text, text_eq}
use clientkit.Text.Trim.{trim_space}
use clientkit.Dict.{lookup}
use clientkit.Http.Header.{Header, equal_fold, canonical_mime_header_key, valid_http_field_name}
use clientkit.Http.Header.Names.{IsToken, valid-IsToken, canonical-equal_fold}
use clientkit.Http.Header.Spellings.{
  equal_fold_iff, lookup-set_context_header, present-set_context_header,
}
use clientkit.Http.ContextHeaders.{
  ContextHeaderBinding, NormalizedContextHeaderBinding, ContextHeaderError, header_name_required,
  header_surrounding_space, header_name_invalid, present_provider, validate_existing_header_policy,
  normalize_context_header_value_limit, normalize_context_header_binding, normalize_bindings,
  new_context_header_propagator, accepted_value, write_value, inject_bindings,
}

-- A header is what it was in every spelling, or has one value under its name and no other spelling.
pub data IsWritten (name : Text) (before after : Header) : Option Text → Type 0 where
  kept :
      ((key : Text) → equal_fold key name ≡ true → lookup key after ≡ lookup key before)
      → IsWritten name before after none
  written :
      (value : Text)
      → lookup name after ≡ some (value ∷ [])
      → ((key : Text) → equal_fold key name ≡ true → key ≢ name → lookup key after ≡ none)
      → IsWritten name before after (some value)

lookup-write_value :
    (headers : Header) (name key : Text) (value : Option Text)
    → equal_fold key name ≡ false
    → lookup key (write_value headers name value) ≡ lookup key headers
lookup-write_value headers name key none h = refl
lookup-write_value headers name key (some value) h = ground (
  arith,
  lookup-set_context_header name value key headers,
  text_eq.beq_iff name key,
  equal_fold_iff key name,
)

write_value-IsWritten :
    (headers after : Header) (name : Text) (value : Option Text)
    → ((key : Text)
        → equal_fold key name ≡ true
        → lookup key after ≡ lookup key (write_value headers name value))
    → IsWritten name headers after value
write_value-IsWritten headers after name none same = kept same
write_value-IsWritten headers after name (some value) same =
    written value
      (ground (
        arith,
        same name,
        equal_fold_iff name name,
        lookup-set_context_header name value name headers,
        text_eq.beq_iff name name,
      ))
      (λ key folds differs. ground (
        arith,
        same key folds,
        lookup-set_context_header name value key headers,
        text_eq.beq_iff name key,
      ))

IsWritten-earlier :
    (name : Text) (earlier before after : Header) (value : Option Text)
    → ((key : Text) → equal_fold key name ≡ true → lookup key before ≡ lookup key earlier)
    → IsWritten name before after value
    → IsWritten name earlier after value
IsWritten-earlier name earlier before after none same (kept e) =
    kept (λ key folds. e key folds ∙ same key folds)
IsWritten-earlier name earlier before after (some value) same (written w e others) =
    written value e others

-- A name that the checks of a binding leave.
abbrev IsCanonical : Text → Type 0
IsCanonical name = (s : Text) × IsToken s × (name ≡ canonical_mime_header_key s)

module _ {Context : Type 0} where
  -- A binding's name differs from those of the bindings after it by more than case.
  abbrev Distinct : List (NormalizedContextHeaderBinding Context) → Type 0
  Distinct [] = Unit
  Distinct (b ∷ bs) = All (λ c. equal_fold b.header c.header ≡ false) bs × Distinct bs

  accepted_value-write_value :
      (b : NormalizedContextHeaderBinding Context) (context : Context) (headers : Header)
      (name : Text) (value : Option Text)
      → equal_fold name b.header ≡ false
      → accepted_value b context (write_value headers name value) ≡ accepted_value b context headers
  unfolding accepted_value
  accepted_value-write_value b context headers name none h = refl
  accepted_value-write_value b context headers name (some value) h =
      rw (present-set_context_header name value b.header headers h) refl

  -- A header that no binding names is what it was.
  inject_bindings-other :
      (bs : List (NormalizedContextHeaderBinding Context)) (context : Context) (headers : Header)
      (key : Text)
      → All (λ b. equal_fold key b.header ≡ false) bs
      → lookup key (inject_bindings bs context headers) ≡ lookup key headers
  unfolding inject_bindings
  inject_bindings-other [] context headers key h = refl
  inject_bindings-other (b ∷ bs) context headers key h =
      inject_bindings-other bs context _ key h.1
      ∙ lookup-write_value headers b.header key (accepted_value b context headers) h.0

  inject_bindings-IsWritten :
      (bs : List (NormalizedContextHeaderBinding Context)) (context : Context) (headers : Header)
      → Distinct bs
      → All
          (λ b.
            IsWritten b.header headers
              (inject_bindings bs context headers)
              (accepted_value b context headers))
          bs
  unfolding inject_bindings
  inject_bindings-IsWritten [] context headers d = tt
  inject_bindings-IsWritten (b ∷ bs) context headers d = (
    write_value-IsWritten headers _ b.header (accepted_value b context headers) (λ key folds.
        inject_bindings-other bs context _ key (
          All-imp bs
            (λ c differ. ground (
              arith,
              equal_fold_iff key b.header,
              equal_fold_iff key c.header,
              equal_fold_iff b.header c.header,
            ))
            d.0)),
    All-imp bs
        (λ c (differ, w).
          IsWritten-earlier c.header headers _ _ (accepted_value c context headers)
            (λ key folds.
              lookup-write_value headers b.header key (accepted_value b context headers) (
                ground (
                  arith,
                  equal_fold_iff key b.header,
                  equal_fold_iff key c.header,
                  equal_fold_iff b.header c.header,
                )))
            (subst (IsWritten c.header _ _)
              (accepted_value-write_value c context headers b.header
                (accepted_value b context headers) differ)
              w))
        (All-zip _ _ bs d.0 (
          inject_bindings-IsWritten bs context
            (write_value headers b.header (accepted_value b context headers)) d.1)),
  )

  abbrev header_of : Result ContextHeaderError (NormalizedContextHeaderBinding Context) → Text
  header_of (ok b) = b.header
  header_of (err e) = []

  normalize_context_header_binding-IsCanonical :
      (binding : ContextHeaderBinding Context) (b : NormalizedContextHeaderBinding Context)
      → normalize_context_header_binding binding ≡ ok b
      → IsCanonical b.header
  unfolding normalize_context_header_binding
  normalize_context_header_binding-IsCanonical binding b h =
      let name = trim_space binding.header in
      let (u1, required, h1) = >>=-eq-ok (refuse_if (name == []) header_name_required) _ h in
      let (u2, unspaced, h2) =
        >>=-eq-ok
          (refuse_if (not (name == binding.header)) (header_surrounding_space binding.header)) _
          h1 in
      let (u3, valid, h3) =
        >>=-eq-ok (refuse_if (not (valid_http_field_name name)) (header_name_invalid name)) _ h2 in
      let (read, there, h4) =
        >>=-eq-ok (present_provider (canonical_mime_header_key name) binding.provider) _ h3 in
      let (u5, known, h5) =
        >>=-eq-ok (validate_existing_header_policy binding.existing_policy) _ h4 in
      let (limit, limited, h6) =
        >>=-eq-ok
          (normalize_context_header_value_limit binding.max_value_bytes binding.disable_value_limit)
          _ h5 in
      let is_valid =
        refuse_if-eq-ok (not (valid_http_field_name name)) (header_name_invalid name) valid in
      (name, valid-IsToken name (ground arith), sym (ap header_of h6))

  -- The names that the loop of NewContextHeaderPropagator leaves, beside those it had.
  abbrev Fresh : List Text → NormalizedContextHeaderBinding Context → Type 0
  Fresh names b = IsCanonical b.header × (contains names b.header ≡ false)

  canonical-differ :
      (b c : NormalizedContextHeaderBinding Context) (names : List Text)
      → IsCanonical b.header
      → Fresh (b.header ∷ names) c
      → equal_fold b.header c.header ≡ false
  canonical-differ b c names (s, hs, es) ((t, ht, et), fresh) =
      elim (Bool-cases (equal_fold b.header c.header)) [
        | inr differ ↦ differ
        | inl same ↦
            let e : b.header ≡ c.header =
              es
              ∙ canonical-equal_fold s t hs ht (
                  subst (λ n. equal_fold n (canonical_mime_header_key t) ≡ true) es
                    (subst (λ n. equal_fold b.header n ≡ true) et same))
              ∙ sym et in
            ground (arith, text_eq.beq_iff b.header c.header)
      ]

  normalize_bindings-head :
      (names : List Text) (binding : ContextHeaderBinding Context)
      (bindings : List (ContextHeaderBinding Context)) (b : NormalizedContextHeaderBinding Context)
      (bs : List (NormalizedContextHeaderBinding Context))
      → normalize_bindings names (binding ∷ bindings) ≡ ok (b ∷ bs)
      → (normalize_context_header_binding binding ≡ ok b)
        × (contains names b.header ≡ false)
        × (normalize_bindings (b.header ∷ names) bindings ≡ ok bs)
  unfolding normalize_bindings
  normalize_bindings-head names binding bindings b bs h = ground arith

  normalize_bindings-Distinct :
      (names : List Text) (bindings : List (ContextHeaderBinding Context))
      (bs : List (NormalizedContextHeaderBinding Context))
      → normalize_bindings names bindings ≡ ok bs
      → All (Fresh names) bs × Distinct bs
  unfolding normalize_bindings
  normalize_bindings-Distinct names bindings [] h = (tt, tt)
  normalize_bindings-Distinct names [] (b ∷ bs) h = cc
  normalize_bindings-Distinct names (binding ∷ bindings) (b ∷ bs) h =
      let (made, fresh, rest) = normalize_bindings-head names binding bindings b bs h in
      let canonical = normalize_context_header_binding-IsCanonical binding b made in
      let (others, distinct) = normalize_bindings-Distinct (b.header ∷ names) bindings bs rest in
      (
        (
          (canonical, fresh),
          All-imp bs (λ c (canonical_c, fresh_c). (canonical_c, ground arith)) others,
        ),
        (All-imp bs (λ c fresh_c. canonical-differ b c names canonical fresh_c) others, distinct),
      )

  -- For a propagator that NewContextHeaderPropagator makes, Inject leaves each header that a binding
  -- names with the one value that the binding accepts for it, from the headers as they were at first,
  -- and with no other spelling of its name, or as it was where the binding accepts none. A header that
  -- no binding names, in any spelling, is what it was.
  pub inject_bindings_lem :
      (bindings : List (ContextHeaderBinding Context))
      (bs : List (NormalizedContextHeaderBinding Context)) (context : Context) (headers : Header)
      → new_context_header_propagator bindings ≡ ok bs
      → All
          (λ b.
            IsWritten b.header headers
              (inject_bindings bs context headers)
              (accepted_value b context headers))
          bs
        × ((key : Text)
            → All (λ b. equal_fold key b.header ≡ false) bs
            → lookup key (inject_bindings bs context headers) ≡ lookup key headers)
  unfolding new_context_header_propagator
  inject_bindings_lem bindings bs context headers h = (
    inject_bindings-IsWritten bs context headers (normalize_bindings-Distinct [] bindings bs h).1,
    λ key other. inject_bindings-other bs context headers key other,
  )
