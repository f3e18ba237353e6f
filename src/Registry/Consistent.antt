-- ===== src/Registry/Consistent.antt =====
-- The registry's invariant, on the registrations that its map holds.
use mathlib.Core.Option.{some-injective}
use clientkit.Prelude.{
  ℕ, ◌≡◌, refl, Bool, true, false, some, List, [], ◌∷◌, All, Result, ok, err, ◌==◌, subst, sym, ◌∙◌,
  returned, Bool-cases, Option-cases, inl, inr,
}
use clientkit.Text.{Text, text_eq}
use clientkit.Dict.{Dict, lookup, insert, lookup-insert, NodupKeys, insert-NodupKeys}
use clientkit.Health.{Health}
use clientkit.Registration.{Registrant, RegistryError, ValidatedRegistration}
use clientkit.Registration.Valid.{IsRegistrable, validate_registration-IsRegistrable}
use clientkit.Registry.{
  RegisteredClientEntry, Registry, entry_of, validate_batch, find_registered, insert_all,
  register_validated, register_checked, register_all, apply_health_check_outcome, override_entry,
  is_outdated,
}
use clientkit.Registry.Atomic.{Validates, validate_batch-Validates}

-- The registration that an entry records.
abbrev pub registration_of : Text → RegisteredClientEntry → ValidatedRegistration
registration_of name entry = record {
  name = name;
  protocol = entry.protocol;
  policy = entry.policy;
  health_check_enabled = entry.health_check_enabled;
  registrant = entry.registrant;
}

-- An entry under the name that its client gives itself, with the protocol that its client gives.
pub record IsProper (name : Text) (entry : RegisteredClientEntry) : Type 0 where
  pub own_name : entry.registrant.name ≡ returned name
  pub own_protocol : entry.registrant.protocol ≡ returned entry.protocol
  pub registrable : IsRegistrable (registration_of name entry)

abbrev AllProper : Dict Text RegisteredClientEntry → Type 0
AllProper m =
    (name : Text) (entry : RegisteredClientEntry) → lookup name m ≡ some entry → IsProper name entry

pub record IsConsistent (r : Registry) : Type 0 where
  pub nodup : NodupKeys r.clients
  pub proper :
      (name : Text) (entry : RegisteredClientEntry)
      → lookup name r.clients ≡ some entry
      → IsProper name entry

insert-proper :
    (name : Text) (entry : RegisteredClientEntry) (m : Dict Text RegisteredClientEntry)
    → IsProper name entry
    → AllProper m
    → AllProper (insert name entry m)
insert-proper name entry m new old other found e = elim (Bool-cases (name == other)) [
  | inr differ ↦ old other found (sym (lookup-insert name other entry m ∙ rw differ) ∙ e)
  | inl same ↦
      let same_entry : entry ≡ found =
        some-injective entry found (sym (lookup-insert name other entry m ∙ rw same) ∙ e) in
      let same_name : name ≡ other = (text_eq.beq_iff name other).0 same in
      subst (λ n. IsProper n found) same_name (subst (λ e. IsProper name e) same_entry new)
]

override-IsProper :
    (name : Text) (entry : RegisteredClientEntry) (health : Health) (decided_at : ℕ)
    (synthetic : Bool)
    → IsProper name entry
    → IsProper name (override_entry entry health decided_at synthetic)
unfolding override_entry
override-IsProper name entry health decided_at true h = record {
  own_name = h.own_name;
  own_protocol = h.own_protocol;
  registrable = h.registrable;
}
override-IsProper name entry health decided_at false h = record {
  own_name = h.own_name;
  own_protocol = h.own_protocol;
  registrable = h.registrable;
}

-- An outcome leaves the map alone, or overrides one entry of it.
apply_cases {ℓ} :
    (P : Registry → Type ℓ) (r : Registry) (name : Text) (health : Health) (decided_at : ℕ)
    (synthetic : Bool)
    → P r
    → ((entry : RegisteredClientEntry)
        → lookup name r.clients ≡ some entry
        → P (record r {
          clients = insert name (override_entry entry health decided_at synthetic) r.clients;
        }))
    → P (apply_health_check_outcome r name health decided_at synthetic)
unfolding apply_health_check_outcome
apply_cases P r name health decided_at synthetic same changed =
    elim (Option-cases (lookup name r.clients)) [
      | inl e ↦ rw (e, apply_health_check_outcome) same
      | inr (entry, e) ↦ elim (Bool-cases (is_outdated entry.synthetic_health decided_at)) [
        | inl old ↦ rw (e, apply_health_check_outcome, old) same
        | inr new ↦ rw (e, apply_health_check_outcome, new) (changed entry e)
      ]
    ]

-- Applying the outcome of a check, to a client that may not be there, keeps a consistent registry
-- consistent.
pub apply_health_check_outcome-IsConsistent :
    (r : Registry) (name : Text) (health : Health) (decided_at : ℕ) (synthetic : Bool)
    → IsConsistent r
    → IsConsistent (apply_health_check_outcome r name health decided_at synthetic)
apply_health_check_outcome-IsConsistent r name health decided_at synthetic c =
    apply_cases IsConsistent r name health decided_at synthetic c λ entry e. record {
      nodup = insert-NodupKeys name _ r.clients c.nodup;
      proper =
          insert-proper name _ r.clients
            (override-IsProper name entry health decided_at synthetic (c.proper name entry e))
            c.proper;
    }

-- The entry that a registration becomes is proper under its name.
abbrev IsRegistration : ValidatedRegistration → Type 0
IsRegistration r = IsProper r.name (entry_of r)

insert_all-NodupKeys :
    (rs : List ValidatedRegistration) (m : Dict Text RegisteredClientEntry)
    → NodupKeys m
    → NodupKeys (insert_all m rs)
unfolding insert_all
insert_all-NodupKeys [] m u = u
insert_all-NodupKeys (r ∷ rs) m u =
    insert_all-NodupKeys rs _ (insert-NodupKeys r.name (entry_of r) m u)

insert_all-proper :
    (rs : List ValidatedRegistration) (m : Dict Text RegisteredClientEntry)
    → All IsRegistration rs
    → AllProper m
    → AllProper (insert_all m rs)
unfolding insert_all
insert_all-proper [] m h a = a
insert_all-proper (r ∷ rs) m h a =
    insert_all-proper rs (insert r.name (entry_of r) m) h.1
      (insert-proper r.name (entry_of r) m h.0 a)

Validates-IsRegistration :
    (registrants : List Registrant) (rs : List ValidatedRegistration)
    → Validates registrants rs
    → All IsRegistration rs
Validates-IsRegistration [] [] v = tt
Validates-IsRegistration [] (r ∷ rs) v = absurd v
Validates-IsRegistration (registrant ∷ registrants) [] v = absurd v
Validates-IsRegistration (registrant ∷ registrants) (r ∷ rs) v = (
  (let (same, name, protocol, registrable) = validate_registration-IsRegistrable registrant r v.0 in
      record { own_name = name; own_protocol = protocol; registrable = registrable }),
  Validates-IsRegistration registrants rs v.1,
)

register_validated-IsConsistent :
    (r : Registry) (rs : List ValidatedRegistration)
    → All IsRegistration rs
    → IsConsistent r
    → IsConsistent (register_validated r rs).0
unfolding register_validated
register_validated-IsConsistent r rs h c = elim (Option-cases (find_registered r.clients rs)) [
  | inr (name, taken) ↦ rw (taken, register_validated) c
  | inl free ↦
      rw (free, register_validated)
        (record {
          nodup = insert_all-NodupKeys rs r.clients c.nodup;
          proper = insert_all-proper rs r.clients h c.proper;
        })
]

-- Registering a batch, whatever it holds and whether or not it succeeds, keeps a consistent registry
-- consistent: no name has two entries, and each entry stands under the name that its client gives
-- itself, with its client's protocol, and is fit for the registry.
pub register_all-IsConsistent :
    (r : Registry) (registrants : List Registrant)
    → IsConsistent r
    → IsConsistent (register_all r registrants).0
unfolding register_all
register_all-IsConsistent r registrants c = go (validate_batch [] registrants) refl
  where
    go :
        (batch : Result RegistryError (List ValidatedRegistration))
        → validate_batch [] registrants ≡ batch
        → IsConsistent (register_checked r batch).0
    go (err e) v = c
    go (ok rs) v =
        register_validated-IsConsistent r rs
          (Validates-IsRegistration registrants rs (validate_batch-Validates [] registrants rs v).0)
          c
