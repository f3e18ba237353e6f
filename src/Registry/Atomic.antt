-- ===== src/Registry/Atomic.antt =====
-- What RegisterAll of registry.go does to the map.
use clientkit.Prelude.{
  ◌≡◌, ◌≢◌, refl, ◌∙◌, true, false, Option, none, some, List, [], ◌∷◌, All, All-imp, Result, ok,
  err, contains, ◌==◌, if◌then◌else◌, arith, Option-cases, inl, inr,
}
use clientkit.Text.{Text, text_eq}
use clientkit.Dict.{Dict, lookup, insert, lookup-insert}
use clientkit.Registration.{Registrant, RegistryError, ValidatedRegistration, validate_registration}
use clientkit.Registry.{
  RegisteredClientEntry, Registry, entry_of, validate_batch, find_registered, insert_all,
  register_validated, register_checked, register_all,
}

-- The registration of a name in a batch, the last one that has it.
pub find_registration : Text → List ValidatedRegistration → Option ValidatedRegistration
find_registration name [] = none
find_registration name (r ∷ rs) = elim (find_registration name rs) [
  | some found ↦ some found
  | none ↦ if r.name == name then some r else none
]

abbrev pub or_registered :
    Option ValidatedRegistration → Option RegisteredClientEntry → Option RegisteredClientEntry
or_registered none old = old
or_registered (some r) old = some (entry_of r)

lookup-insert_all :
    (name : Text) (rs : List ValidatedRegistration) (m : Dict Text RegisteredClientEntry)
    → lookup name (insert_all m rs) ≡ or_registered (find_registration name rs) (lookup name m)
unfolding insert_all find_registration
lookup-insert_all name [] m = refl
lookup-insert_all name (r ∷ rs) m = ground (
  arith,
  lookup-insert_all name rs (insert r.name (entry_of r) m),
  lookup-insert r.name name (entry_of r) m,
)

-- No name is in `names`, or comes twice.
abbrev pub Fresh : List Text → List ValidatedRegistration → Type 0
Fresh names [] = Unit
Fresh names (r ∷ rs) = (contains names r.name ≡ false) × Fresh (r.name ∷ names) rs

-- A list of registrations, each made of the registrant at its place.
abbrev pub Validates : List Registrant → List ValidatedRegistration → Type 0
Validates [] [] = Unit
Validates [] (r ∷ rs) = ⊥
Validates (registrant ∷ registrants) [] = ⊥
Validates (registrant ∷ registrants) (r ∷ rs) =
    (validate_registration registrant ≡ ok r) × Validates registrants rs

pub validate_batch-Validates :
    (names : List Text) (registrants : List Registrant) (rs : List ValidatedRegistration)
    → validate_batch names registrants ≡ ok rs
    → Validates registrants rs × Fresh names rs
unfolding validate_batch
validate_batch-Validates names [] [] h = (tt, tt)
validate_batch-Validates names [] (r ∷ rs) h = cc
validate_batch-Validates names (registrant ∷ registrants) [] h = ground arith
validate_batch-Validates names (registrant ∷ registrants) (r ∷ rs) h =
    ground (arith, validate_batch-Validates (r.name ∷ names) registrants rs)

find_registration-Fresh :
    (name : Text) (names : List Text) (rs : List ValidatedRegistration)
    → Fresh names rs
    → contains names name ≡ true
    → find_registration name rs ≡ none
unfolding find_registration
find_registration-Fresh name names [] f h = refl
find_registration-Fresh name names (r ∷ rs) f h =
    ground
      (arith, find_registration-Fresh name (r.name ∷ names) rs f.1, text_eq.beq_iff r.name name)

find_registration-All :
    (names : List Text) (rs : List ValidatedRegistration)
    → Fresh names rs
    → All (λ (r : ValidatedRegistration). find_registration r.name rs ≡ some r) rs
unfolding find_registration
find_registration-All names [] f = tt
find_registration-All names (r ∷ rs) f = (
  ground (
    arith,
    find_registration-Fresh r.name (r.name ∷ names) rs f.1,
    text_eq.beq_iff r.name r.name,
  ),
  All-imp rs (λ s h. rw h) (find_registration-All (r.name ∷ names) rs f.1),
)

find_registered-none :
    (m : Dict Text RegisteredClientEntry) (rs : List ValidatedRegistration)
    → find_registered m rs ≡ none
    → All (λ (r : ValidatedRegistration). lookup r.name m ≡ none) rs
unfolding find_registered
find_registered-none m [] h = tt
find_registered-none m (r ∷ rs) h = ground (arith, find_registered-none m rs)

-- A registrant that was valid and new, and that the map has now as it was validated.
pub Accepted : Registry → Registry → Registrant → Type 0
Accepted before now registrant =
    (r : ValidatedRegistration) × (validate_registration registrant ≡ ok r)
    × (lookup r.name before.clients ≡ none)
    × (lookup r.name now.clients ≡ some (entry_of r))

collect-Accepted :
    (before now : Registry) (registrants : List Registrant) (rs : List ValidatedRegistration)
    → Validates registrants rs
    → All (λ (r : ValidatedRegistration). lookup r.name before.clients ≡ none) rs
    → All (λ (r : ValidatedRegistration). lookup r.name now.clients ≡ some (entry_of r)) rs
    → All (Accepted before now) registrants
unfolding Accepted
collect-Accepted before now [] [] v o n = tt
collect-Accepted before now [] (r ∷ rs) v o n = absurd v
collect-Accepted before now (registrant ∷ registrants) [] v o n = absurd v
collect-Accepted before now (registrant ∷ registrants) (r ∷ rs) v o n =
    ((r, v.0, o.0, n.0), collect-Accepted before now registrants rs v.1 o.1 n.1)

keeps_registered :
    (name : Text) (rs : List ValidatedRegistration) (m : Dict Text RegisteredClientEntry)
    (entry : RegisteredClientEntry)
    → All (λ (r : ValidatedRegistration). lookup r.name m ≡ none) rs
    → lookup name m ≡ some entry
    → find_registration name rs ≡ none
unfolding find_registration
keeps_registered name [] m entry o h = refl
keeps_registered name (r ∷ rs) m entry o h =
    ground (arith, keeps_registered name rs m entry o.1 h, text_eq.beq_iff r.name name)

refused :
    (before : Registry) (rs : List ValidatedRegistration) {name : Text}
    → find_registered before.clients rs ≡ some name
    → (register_validated before rs).1 ≢ none
unfolding register_validated
refused before rs taken h = ground arith

register_validated_free :
    (before : Registry) (rs : List ValidatedRegistration)
    → find_registered before.clients rs ≡ none
    → register_validated before rs
      ≡ (record before { clients = insert_all before.clients rs }, none)
unfolding register_validated
register_validated_free before rs free = ground arith

register_validated_ok :
    (before : Registry) (registrants : List Registrant) (rs : List ValidatedRegistration)
    → Validates registrants rs × Fresh [] rs
    → (register_validated before rs).1 ≡ none
    → let now = (register_validated before rs).0 in
      All (Accepted before now) registrants
      × ((name : Text) (entry : RegisteredClientEntry)
          → lookup name before.clients ≡ some entry
          → lookup name now.clients ≡ some entry)
unfolding Accepted
register_validated_ok before registrants rs v h =
    elim (Option-cases (find_registered before.clients rs)) [
      | inr (name, taken) ↦ absurd (refused before rs taken h)
      | inl free ↦ rw (register_validated_free before rs free) (
        collect-Accepted before (record before { clients = insert_all before.clients rs })
            registrants rs v.0 (find_registered-none before.clients rs free)
            (All-imp rs (λ r found. lookup-insert_all r.name rs before.clients ∙ rw found)
              (find_registration-All [] rs v.1)),
        λ name entry old.
            lookup-insert_all name rs before.clients
            ∙ rw
                (keeps_registered name rs before.clients entry
                  (find_registered-none before.clients rs free) old)
                old,
      )
    ]

register_validated_err :
    (before : Registry) (rs : List ValidatedRegistration) {e : RegistryError}
    → (register_validated before rs).1 ≡ some e
    → (register_validated before rs).0 ≡ before
unfolding register_validated
register_validated_err before rs h = ground arith

-- RegisterAll is atomic. With an error the registry is as it was. Without one, each client of the
-- batch was valid and had a new name, and it is registered as it was validated; and every client
-- that was registered before still is.
pub register_all_lem :
    (before : Registry) (registrants : List Registrant)
    → let (now, error) = register_all before registrants in
      ((e : RegistryError) → error ≡ some e → now ≡ before)
      × (error ≡ none
          → All (Accepted before now) registrants
            × ((name : Text) (entry : RegisteredClientEntry)
                → lookup name before.clients ≡ some entry
                → lookup name now.clients ≡ some entry))
unfolding register_all
register_all_lem before registrants = go (validate_batch [] registrants) refl
  where
    go :
        (batch : Result RegistryError (List ValidatedRegistration))
        → validate_batch [] registrants ≡ batch
        → let (now, error) = register_checked before batch in
          ((e : RegistryError) → error ≡ some e → now ≡ before)
          × (error ≡ none
              → All (Accepted before now) registrants
                × ((name : Text) (entry : RegisteredClientEntry)
                    → lookup name before.clients ≡ some entry
                    → lookup name now.clients ≡ some entry))
    go (err e) v = (λ e' h. refl, λ h. cc)
    go (ok rs) v = (
      λ e h. register_validated_err before rs h,
      register_validated_ok before registrants rs (validate_batch-Validates [] registrants rs v),
    )
