-- ===== src/Http/Propagation/Restored.antt =====
-- What a propagator that panics leaves, in httpclient/propagation.go.
use mathlib.Core.List.{append-nil, append_assoc}
use clientkit.Prelude.{
  ◌≡◌, refl, sym, ap, subst, ◌∙◌, false, none, List, [], ◌∷◌, ◌++◌, Call, returned, panicked, All,
  arith, ◌==◌,
}
use clientkit.Text.{Text, text_eq}
use clientkit.Dict.{lookup, insert, NodupKeys}
use clientkit.Http.Header.{Header}
use clientkit.Http.Propagation.{
  HeaderPropagator, copy_into, restore_headers, contain_injection, inject_header_safely, inject_all,
}

insert-fresh :
    (key : Text) (values : List Text) (headers : Header)
    → lookup key headers ≡ none
    → insert key values headers ≡ headers ++ (key, values) ∷ []
unfolding insert lookup
insert-fresh key values [] h = refl
insert-fresh key values ((k, v) ∷ headers) h = ground (arith, insert-fresh key values headers)

nodup-middle :
    (done : Header) (key : Text) (values : List Text) (rest : Header)
    → NodupKeys (done ++ (key, values) ∷ rest)
    → lookup key done ≡ none
unfolding lookup
nodup-middle [] key values rest u = refl
nodup-middle ((k, v) ∷ done) key values rest u =
    ground (arith, nodup-middle done key values rest u.1, absent done u.0, text_eq.beq_iff k key)
  where
    absent : (d : Header) → lookup k (d ++ (key, values) ∷ rest) ≡ none → (key == k) ≡ false
    absent [] h = ground arith
    absent ((j, w) ∷ d) h = ground (arith, absent d)

copy_into-append :
    (done backup : Header) → NodupKeys (done ++ backup) → copy_into done backup ≡ done ++ backup
copy_into-append done [] u = sym (append-nil done)
copy_into-append done ((key, values) ∷ backup) u =
    ap (λ headers. copy_into headers backup)
      (insert-fresh key values done (nodup-middle done key values backup u))
    ∙ copy_into-append (done ++ (key, values) ∷ []) backup
        (subst NodupKeys (sym (append_assoc done ((key, values) ∷ []) backup)) u)
    ∙ append_assoc done ((key, values) ∷ []) backup

-- Restoring a header from its backup gives the backup, whatever was done to the header meanwhile.
restore_headers_lem :
    (headers backup : Header) → NodupKeys backup → restore_headers headers backup ≡ backup
unfolding restore_headers
restore_headers_lem headers backup u = copy_into-append [] backup u

module _ {Context : Type 0} where
  -- A header is a map: what a propagator that returns leaves has no key twice.
  abbrev pub KeepsKeys : HeaderPropagator Context → Type 0
  KeepsKeys propagator =
      (context : Context) (headers after : Header)
      → NodupKeys headers
      → propagator context headers ≡ (after, returned tt)
      → NodupKeys after

  inject_header_safely-NodupKeys :
      (propagator : HeaderPropagator Context)
      → KeepsKeys propagator
      → (context : Context) (headers : Header) → NodupKeys headers
      → NodupKeys (inject_header_safely propagator context headers)
  unfolding inject_header_safely
  inject_header_safely-NodupKeys propagator keeps context headers u =
      contained (propagator context headers) refl
    where
      contained :
          (p : Header × Call (Unit {0}))
          → propagator context headers ≡ p
          → NodupKeys (contain_injection headers p)
      contained (after, returned done) e = keeps context headers after u e
      contained (after, panicked) e = subst NodupKeys (sym (restore_headers_lem after headers u)) u

  -- A propagator that panics, whatever it did to the header before, is as one that is not there: the
  -- header is restored and the others run on it. That is so for headers with no key twice, and where
  -- the propagators that run before it keep them so.
  pub inject_all-panics :
      (earlier later : List (HeaderPropagator Context)) (propagator : HeaderPropagator Context)
      (context : Context) (headers : Header)
      → ((found : Header) → (propagator context found).1 ≡ panicked)
      → All KeepsKeys earlier
      → NodupKeys headers
      → inject_all (earlier ++ propagator ∷ later) context headers
        ≡ inject_all (earlier ++ later) context headers
  unfolding inject_all inject_header_safely
  inject_all-panics [] later propagator context headers panics keeps u =
      ap (inject_all later context) (restored (propagator context headers) (panics headers))
    where
      restored :
          (p : Header × Call (Unit {0})) → p.1 ≡ panicked → contain_injection headers p ≡ headers
      restored (after, returned done) h = cc
      restored (after, panicked) h = restore_headers_lem after headers u
  inject_all-panics (first ∷ earlier) later propagator context headers panics keeps u =
      inject_all-panics earlier later propagator context
        (inject_header_safely first context headers) panics keeps.1
        (inject_header_safely-NodupKeys first keeps.0 context headers u)
