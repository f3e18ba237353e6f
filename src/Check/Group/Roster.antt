-- ===== src/Check/Group/Roster.antt =====
-- Which checkers healthCheckersSnapshot of registry.go gives, and in which order.
use clientkit.Prelude.{
  ◌≡◌, ◌↔◌, refl, sym, ap, ◌∙◌, true, Option, none, some, List, [], ◌∷◌, map, if◌then◌else◌, arith,
  Bool-cases, inl, inr,
}
use clientkit.Text.{Text, text_eq}
use clientkit.Dict.{Dict, lookup, NodupKeys}
use clientkit.Registry.{RegisteredClientEntry, Registry}
use clientkit.Sort.{
  sort_by_name, sort_by_name-map, sort_by_name-IsSorted, lookup-sort_by_name, IsSorted, key,
}
use clientkit.Check.Group.{
  NamedHealthChecker, is_enabled, enabled_checkers, health_checkers_snapshot,
}

-- The checker of a client that is registered under a name.
abbrev pub checker_of : Text × RegisteredClientEntry → NamedHealthChecker
checker_of (name, entry) = record {
  name = name;
  protocol = entry.protocol;
  checker = entry.registrant;
  policy = entry.policy;
}

-- The checkers of exactly the clients whose check is enabled and that can check themselves, by
-- strictly rising name.
pub record IsRoster (clients : Dict Text RegisteredClientEntry) (checkers : List NamedHealthChecker)
    : Type 0 where
  pub entries : Dict Text RegisteredClientEntry
  pub listed : checkers ≡ map checker_of entries
  pub sorted : IsSorted key entries
  pub complete :
      (name : Text) (entry : RegisteredClientEntry)
      → (lookup name entries ≡ some entry) ↔ (
          (lookup name clients ≡ some entry)
          × (entry.health_check_enabled ≡ true)
          × (entry.registrant.is_health_checker ≡ true))

keep_enabled : Dict Text RegisteredClientEntry → Dict Text RegisteredClientEntry
keep_enabled [] = []
keep_enabled ((name, entry) ∷ clients) =
    let rest = keep_enabled clients in if is_enabled entry then (name, entry) ∷ rest else rest

enabled_checkers-keep_enabled :
    (clients : Dict Text RegisteredClientEntry)
    → enabled_checkers clients ≡ map checker_of (keep_enabled clients)
unfolding enabled_checkers keep_enabled
enabled_checkers-keep_enabled [] = refl
enabled_checkers-keep_enabled ((name, entry) ∷ clients) =
    ground (arith, enabled_checkers-keep_enabled clients)

if_enabled : Option RegisteredClientEntry → Option RegisteredClientEntry
if_enabled none = none
if_enabled (some entry) = if is_enabled entry then some entry else none

lookup-keep_enabled :
    (clients : Dict Text RegisteredClientEntry) (name : Text)
    → NodupKeys clients
    → lookup name (keep_enabled clients) ≡ if_enabled (lookup name clients)
unfolding lookup keep_enabled if_enabled
lookup-keep_enabled [] name u = refl
lookup-keep_enabled ((k, entry) ∷ clients) name u =
    ground (arith, lookup-keep_enabled clients name u.1, text_eq.beq_iff k name)

-- A name that is not registered has no enabled entry.
lookup-keep_none :
    (clients : Dict Text RegisteredClientEntry) (name : Text)
    → NodupKeys clients
    → lookup name clients ≡ none
    → lookup name (keep_enabled clients) ≡ none
unfolding if_enabled
lookup-keep_none clients name u absent = lookup-keep_enabled clients name u ∙ ap if_enabled absent

keep_enabled-NodupKeys :
    (clients : Dict Text RegisteredClientEntry)
    → NodupKeys clients
    → NodupKeys (keep_enabled clients)
unfolding keep_enabled
keep_enabled-NodupKeys [] u = tt
keep_enabled-NodupKeys ((k, entry) ∷ clients) u = elim (Bool-cases (is_enabled entry)) [
  | inr off ↦ rw off (keep_enabled-NodupKeys clients u.1)
  | inl on ↦ rw on (lookup-keep_none clients k u.1 u.0, keep_enabled-NodupKeys clients u.1)
]

if_enabled_iff :
    (o : Option RegisteredClientEntry) (entry : RegisteredClientEntry)
    → (if_enabled o ≡ some entry) ↔ (
        (o ≡ some entry)
        × (entry.health_check_enabled ≡ true)
        × (entry.registrant.is_health_checker ≡ true))
unfolding if_enabled
if_enabled_iff none entry = ((λ h. cc), λ h. cc)
if_enabled_iff (some found) entry = ((λ h. ground arith), λ h. ground arith)

pub health_checkers_snapshot-IsRoster :
    (r : Registry) → NodupKeys r.clients → IsRoster r.clients (health_checkers_snapshot (some r))
unfolding health_checkers_snapshot
health_checkers_snapshot-IsRoster r u =
    let kept = keep_enabled r.clients in
    let nodup = keep_enabled-NodupKeys r.clients u in
    record {
      entries = sort_by_name key kept;
      listed =
          ap (sort_by_name (λ (c : NamedHealthChecker). c.name))
            (enabled_checkers-keep_enabled r.clients)
          ∙ sort_by_name-map key (λ (c : NamedHealthChecker). c.name) checker_of (λ p. refl) kept;
      sorted = sort_by_name-IsSorted kept nodup;
      complete = λ name entry.
          let found = lookup-sort_by_name kept name nodup ∙ lookup-keep_enabled r.clients name u in
          let iff = if_enabled_iff (lookup name r.clients) entry in
          ((λ h. iff.0 (sym found ∙ h)), λ h. found ∙ iff.1 h);
    }
