-- ===== src/Dict.antt =====
-- Go maps as association lists. An insertion replaces the entry of its key, or adds one.
use clientkit.Prelude.{◌≡◌, refl, Option, none, some, List, [], ◌∷◌, Eq, ◌==◌, if◌then◌else◌, arith}

abbrev pub Dict {ℓ κ} : Type ℓ → Type κ → Type (ℓ ⊔ κ)
Dict K V = List (K × V)

module _ {ℓ κ} {K : Type ℓ} {V : Type κ} ⦃e : Eq K⦄ where
  unfoldable pub lookup : K → Dict K V → Option V
  lookup k [] = none
  lookup k ((j, v) ∷ m) = if j == k then some v else lookup k m

  unfoldable pub insert : K → V → Dict K V → Dict K V
  insert key value ((other, old) ∷ m) =
      if other == key then (key, value) ∷ m else (other, old) ∷ insert key value m
  insert key value [] = (key, value) ∷ []

  -- No key has two entries.
  abbrev pub NodupKeys : Dict K V → Type κ
  NodupKeys [] = Unit
  NodupKeys ((k, v) ∷ m) = (lookup k m ≡ none) × NodupKeys m

  pub lookup-insert :
      (key sought : K) (value : V) (m : Dict K V)
      → lookup sought (insert key value m) ≡ (if key == sought then some value else lookup sought m)
  unfolding lookup insert
  lookup-insert key sought value ((other, old) ∷ m) = ground (
    arith,
    e.beq_iff key sought,
    e.beq_iff other key,
    e.beq_iff other sought,
    lookup-insert key sought value m,
  )
  lookup-insert key sought value [] = refl

  pub insert-NodupKeys : (k : K) (v : V) (m : Dict K V) → NodupKeys m → NodupKeys (insert k v m)
  unfolding insert lookup
  insert-NodupKeys k v [] u = (refl, tt)
  insert-NodupKeys k v ((j, w) ∷ m) (fresh, u) =
      ground (arith, insert-NodupKeys k v m u, lookup-insert k j v m, e.beq_iff j k, e.beq_iff k j)
