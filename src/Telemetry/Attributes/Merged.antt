-- ===== src/Telemetry/Attributes/Merged.antt =====
-- What the merging of attributes keeps: the last value of each key, at the place of its first.
use clientkit.Prelude.{
  ℕ, zero, suc, ◌+◌, ◌≤◌, ◌≡◌, refl, sym, ap, ◌∙◌, Bool, true, false, Option, none, some, List, [],
  ◌∷◌, ◌++◌, length, ◌==◌, if◌then◌else◌, arith, Bool-cases, inl, inr, subst, true-ne-false,
}
use clientkit.Text.{Text, text_eq}
use clientkit.Dict.{Dict, lookup, insert, lookup-insert, NodupKeys, insert-NodupKeys}
use clientkit.Telemetry.Attributes.{
  is_blank, set_at, place, merge_one, merge_loop, merge_attributes,
}

module _ {ℓ} {V : Type ℓ} where
  -- The reference: each attribute in turn takes the place of its key, or a new one at the end.
  unfoldable pub inserted : List (Text × V) → Dict Text V → Dict Text V
  inserted [] merged = merged
  inserted ((key, value) ∷ values) merged =
      let kept = inserted values merged in
      let changed = inserted values (insert key value merged) in
      if is_blank key then kept else changed

  -- The place of a key in a list.
  unfoldable position_from : ℕ → Text → Dict Text V → Option ℕ
  position_from from key [] = none
  position_from from key ((other, value) ∷ merged) =
      let rest = position_from (suc from) key merged in if other == key then some from else rest

  -- The map of positions is right about the list.
  abbrev Placed : List (Text × V) → Dict Text ℕ → Type 0
  Placed merged positions = (key : Text) → lookup key positions ≡ position_from 0 key merged

  position_from-append :
      (from : ℕ) (key other : Text) (value : V) (merged : Dict Text V)
      → position_from from key (merged ++ (other, value) ∷ [])
        ≡ (elim (position_from from key merged) [
          | some position ↦ some position
          | none ↦ if other == key then some (from + length merged) else none
        ])
  unfolding position_from
  position_from-append from key other value [] = ground arith
  position_from-append from key other value ((k, v) ∷ merged) =
      ground (arith, position_from-append (suc from) key other value merged)

  position_from-bound :
      (from position : ℕ) (key : Text) (merged : Dict Text V)
      → position_from from key merged ≡ some position
      → from ≤ position
  unfolding position_from
  position_from-bound from position key [] h = cc
  position_from-bound from position key ((k, v) ∷ merged) h =
      ground (arith, position_from-bound (suc from) position key merged)

  -- Setting what stands at the place of a key is an insertion, and moves no key.
  set_at-position :
      (from position : ℕ) (key : Text) (value : V) (merged : Dict Text V)
      → position_from from key merged ≡ some (from + position)
      → set_at position (key, value) merged ≡ insert key value merged
  unfolding position_from set_at insert
  set_at-position from position key value [] h = cc
  set_at-position from zero key value ((k, v) ∷ merged) h =
      ground (arith, position_from-bound (suc from) (from + 0) key merged, text_eq.beq_iff k key)
  set_at-position from (suc position) key value ((k, v) ∷ merged) h = elim (Bool-cases (k == key)) [
    | inl same ↦ ground arith
    | inr differ ↦
        let rest = set_at-position (suc from) position key value merged (ground arith) in
        rw (differ, insert) (ap (λ m. (k, v) ∷ m) rest)
  ]

  position_from-insert :
      (from : ℕ) (key other : Text) (value : V) (merged : Dict Text V)
      → (position : ℕ) → position_from from key merged ≡ some position
      → position_from from other (insert key value merged) ≡ position_from from other merged
  unfolding position_from insert
  position_from-insert from key other value [] position h = cc
  position_from-insert from key other value ((k, v) ∷ merged) position h = ground (
    arith,
    position_from-insert (suc from) key other value merged position,
    text_eq.beq_iff k key,
  )

  insert-absent :
      (from : ℕ) (key : Text) (value : V) (merged : Dict Text V)
      → position_from from key merged ≡ none
      → merged ++ (key, value) ∷ [] ≡ insert key value merged
  unfolding position_from insert
  insert-absent from key value [] h = refl
  insert-absent from key value ((k, v) ∷ merged) h =
      ground (arith, insert-absent (suc from) key value merged)

  place-Placed :
      (key : Text) (value : V) (merged : Dict Text V) (positions : Dict Text ℕ) (o : Option ℕ)
      → position_from 0 key merged ≡ o
      → Placed merged positions
      → ((place (key, value) o merged positions).0 ≡ insert key value merged)
        × Placed (place (key, value) o merged positions).0 (place (key, value) o merged positions).1
  place-Placed key value merged positions (some position) e placed =
      let set = set_at-position 0 position key value merged (e ∙ ap some (omega arith)) in
      (
        set,
        λ other.
            placed other
            ∙ sym (
                ap (position_from 0 other) set
                ∙ position_from-insert 0 key other value merged position e),
      )
  place-Placed key value merged positions none e placed = (
    insert-absent 0 key value merged e,
    λ other. ground (
      arith,
      lookup-insert key other (length merged) positions,
      position_from-append 0 other key value merged,
      placed other,
      text_eq.beq_iff key other,
    ),
  )

  merge_loop-inserted :
      (values : List (Text × V)) (merged : Dict Text V) (positions : Dict Text ℕ)
      → Placed merged positions
      → merge_loop values merged positions ≡ inserted values merged
  unfolding merge_loop inserted merge_one
  merge_loop-inserted [] merged positions placed = refl
  merge_loop-inserted ((key, value) ∷ values) merged positions placed =
      elim (Bool-cases (is_blank key)) [
        | inl blank ↦ rw blank (merge_loop-inserted values merged positions placed)
        | inr there ↦
            let (step, placed') =
              place-Placed key value merged positions (lookup key positions) (sym (placed key))
                placed in
            rw there (
              merge_loop-inserted values
                (place (key, value) (lookup key positions) merged positions).0
                (place (key, value) (lookup key positions) merged positions).1 placed'
              ∙ ap (inserted values) step)
      ]

  inserted-NodupKeys :
      (values : List (Text × V)) (merged : Dict Text V)
      → NodupKeys merged
      → NodupKeys (inserted values merged)
  unfolding inserted
  inserted-NodupKeys [] merged u = u
  inserted-NodupKeys ((key, value) ∷ values) merged u = elim (Bool-cases (is_blank key)) [
    | inl blank ↦ rw (blank, inserted) (inserted-NodupKeys values merged u)
    | inr there ↦
        rw (there, inserted)
          (inserted-NodupKeys values (insert key value merged)
            (insert-NodupKeys key value merged u))
  ]

  -- The value that a list gives to a key last, or the one it has.
  abbrev pub last_value : Text → List (Text × V) → Option V → Option V
  last_value key [] now = now
  last_value key ((other, value) ∷ values) now =
      let later = last_value key values now in
      let changed = last_value key values (some value) in if other == key then changed else later

  lookup-inserted :
      (key : Text) (values : List (Text × V)) (merged : Dict Text V)
      → is_blank key ≡ false
      → lookup key (inserted values merged) ≡ last_value key values (lookup key merged)
  unfolding inserted
  lookup-inserted key [] merged h = refl
  lookup-inserted key ((other, value) ∷ values) merged h = elim (Bool-cases (is_blank other)) [
    | inl blank ↦ elim (Bool-cases (other == key)) [
      | inl same ↦
          true-ne-false (subst (λ k. is_blank k ≡ true) ((text_eq.beq_iff other key).0 same) blank)
            h
      | inr differ ↦ rw (blank, inserted, differ) (lookup-inserted key values merged h)
    ]
    | inr there ↦
        rw (there, inserted)
          (lookup-inserted key values (insert other value merged) h
            ∙ ap (last_value key values) (lookup-insert other key value merged)
            ∙ chosen (other == key))
  ]
    where
      chosen :
          (b : Bool)
          → last_value key values (if b then some value else lookup key merged) ≡ (
              if b
              then last_value key values (some value)
              else last_value key values (lookup key merged))
      chosen true = refl
      chosen false = refl

  -- Merging attributes by a map of positions is to insert them one after another, but those with a
  -- blank key: no key occurs twice, and each key that is not blank has the value it was given last.
  pub merge_attributes_lem :
      (values : List (Text × V))
      → (merge_attributes values ≡ inserted values [])
        × NodupKeys (merge_attributes values)
        × ((key : Text)
            → is_blank key ≡ false
            → lookup key (merge_attributes values) ≡ last_value key values none)
  unfolding merge_attributes lookup position_from
  merge_attributes_lem values =
      let e : merge_attributes values ≡ inserted values [] =
        merge_loop-inserted values [] [] (λ key. refl) in
      (
        e,
        subst NodupKeys (sym e) (inserted-NodupKeys values [] tt),
        λ key there. ap (lookup key) e ∙ lookup-inserted key values [] there,
      )
