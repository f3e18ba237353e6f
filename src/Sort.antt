-- ===== src/Sort.antt =====
-- sort.Slice by name, as an insertion sort: where the names differ the sorted list is unique, so
-- every algorithm gives this one.
use clientkit.Prelude.{
  ◌≡◌, refl, sym, ◌∙◌, ap, subst, true, false, List, [], ◌∷◌, map, All, All-imp, none, some, ◌==◌,
  arith, if◌then◌else◌, Bool-cases, inl, inr, true-ne-false,
}
use clientkit.Text.{Text, text_eq, text_ltb}
use clientkit.Text.Order.{text_ltb_irrefl, text_ltb_asymm, text_ltb_trans, text_ltb_total}
use clientkit.Dict.{Dict, lookup, NodupKeys}

module _ {ℓ} {A : Type ℓ} (name : A → Text) where
  unfoldable pub insert_sorted : A → List A → List A
  insert_sorted a [] = a ∷ []
  insert_sorted a (b ∷ l) = if text_ltb (name b) (name a) then b ∷ insert_sorted a l else a ∷ b ∷ l

  unfoldable pub sort_by_name : List A → List A
  unfolding insert_sorted
  sort_by_name [] = []
  sort_by_name (a ∷ l) = insert_sorted a (sort_by_name l)

  -- The names rise strictly along the list.
  abbrev pub IsSorted : List A → Type 0
  IsSorted [] = Unit
  IsSorted (a ∷ l) = All (λ b. text_ltb (name a) (name b) ≡ true) l × IsSorted l

module _ {ℓ κ} {A : Type ℓ} {B : Type κ} (name : A → Text) (name' : B → Text) (f : A → B)
    (same : (a : A) → name' (f a) ≡ name a) where
  map-insert_sorted :
      (a : A) (l : List A) → insert_sorted name' (f a) (map f l) ≡ map f (insert_sorted name a l)
  unfolding insert_sorted
  map-insert_sorted a [] = refl
  map-insert_sorted a (b ∷ l) = ground (arith, same a, same b, map-insert_sorted a l)

  -- To sort what a map makes of a list is to make it of the sorted list.
  pub sort_by_name-map : (l : List A) → sort_by_name name' (map f l) ≡ map f (sort_by_name name l)
  unfolding sort_by_name
  sort_by_name-map [] = refl
  sort_by_name-map (a ∷ l) =
      ap (insert_sorted name' (f a)) (sort_by_name-map l)
      ∙ map-insert_sorted a (sort_by_name name l)

lt_of_differ : (j k : Text) → (j == k) ≡ false → text_ltb j k ≡ false → text_ltb k j ≡ true
lt_of_differ j k d h = elim (Bool-cases (text_ltb k j)) [
  | inl lt ↦ lt
  | inr ge ↦ true-ne-false ((text_eq.beq_iff j k).1 (text_ltb_total j k h ge)) d
]

module _ {ℓ} {V : Type ℓ} where
  abbrev pub key : Text × V → Text
  key (k, v) = k

  lookup-insert_sorted :
      (k : Text) (v : V) (m : Dict Text V) (j : Text)
      → lookup k m ≡ none
      → lookup j (insert_sorted key (k, v) m) ≡ (if k == j then some v else lookup j m)
  unfolding insert_sorted lookup
  lookup-insert_sorted k v [] j h = refl
  lookup-insert_sorted k v ((i, w) ∷ m) j h = ground (
    arith,
    lookup-insert_sorted k v m j,
    text_eq.beq_iff k j,
    text_eq.beq_iff i j,
    text_eq.beq_iff i k,
  )

  pub lookup-sort_by_name :
      (m : Dict Text V) (j : Text) → NodupKeys m → lookup j (sort_by_name key m) ≡ lookup j m
  unfolding sort_by_name lookup
  lookup-sort_by_name [] j u = refl
  lookup-sort_by_name ((k, v) ∷ m) j u =
      lookup-insert_sorted k v (sort_by_name key m) j (lookup-sort_by_name m k u.1 ∙ u.0)
      ∙ ap (λ o. if k == j then some v else o) (lookup-sort_by_name m j u.1)

  insert_sorted-above :
      (low : Text) (k : Text) (v : V) (m : Dict Text V)
      → text_ltb low k ≡ true
      → All (λ p. text_ltb low (key p) ≡ true) m
      → All (λ p. text_ltb low (key p) ≡ true) (insert_sorted key (k, v) m)
  unfolding insert_sorted
  insert_sorted-above low k v [] h a = (h, tt)
  insert_sorted-above low k v ((j, w) ∷ m) h a = ground (arith, insert_sorted-above low k v m h a.1)

  lookup-none_tail :
      (k j : Text) (w : V) (m : Dict Text V)
      → lookup k ((j, w) ∷ m) ≡ none
      → (lookup k m ≡ none) × ((j == k) ≡ false)
  unfolding lookup
  lookup-none_tail k j w m h = ground arith

  insert_sorted-IsSorted :
      (k : Text) (v : V) (m : Dict Text V)
      → lookup k m ≡ none
      → IsSorted key m
      → IsSorted key (insert_sorted key (k, v) m)
  unfolding insert_sorted
  insert_sorted-IsSorted k v [] h s = (tt, tt)
  insert_sorted-IsSorted k v ((j, w) ∷ m) h s =
      let (fresh, differ) = lookup-none_tail k j w m h in
      elim (Bool-cases (text_ltb j k)) [
        | inl lt ↦
            rw lt (insert_sorted-above j k v m lt s.0, insert_sorted-IsSorted k v m fresh s.1)
        | inr ge ↦
            let lt = lt_of_differ j k differ ge in
            rw ge ((lt, All-imp m (λ p above. text_ltb_trans k j (key p) lt above) s.0), s)
      ]

  pub sort_by_name-IsSorted : (m : Dict Text V) → NodupKeys m → IsSorted key (sort_by_name key m)
  unfolding sort_by_name
  sort_by_name-IsSorted [] u = tt
  sort_by_name-IsSorted ((k, v) ∷ m) u =
      insert_sorted-IsSorted k v (sort_by_name key m) (lookup-sort_by_name m k u.1 ∙ u.0)
        (sort_by_name-IsSorted m u.1)

  -- What lies above a name is not it.
  lookup-above :
      (low : Text) (m : Dict Text V)
      → All (λ p. text_ltb low (key p) ≡ true) m
      → lookup low m ≡ none
  unfolding lookup
  lookup-above low [] a = refl
  lookup-above low ((j, w) ∷ m) a =
      ground (arith, lookup-above low m a.1, text_eq.beq_iff j low, text_ltb_irrefl low)

  -- A name that is found above a lower bound lies above it.
  lookup-some_above :
      (low k : Text) (m : Dict Text V) (v : V)
      → All (λ p. text_ltb low (key p) ≡ true) m
      → lookup k m ≡ some v
      → text_ltb low k ≡ true
  unfolding lookup
  lookup-some_above low k [] v a h = cc
  lookup-some_above low k ((j, w) ∷ m) v a h =
      ground (arith, lookup-some_above low k m v a.1, text_eq.beq_iff j k)

  -- A name at the head of one list alone lies above the head of the other.
  head_above :
      (k j : Text) (v w : V) (m n : Dict Text V)
      → IsSorted key ((j, w) ∷ n)
      → lookup k ((k, v) ∷ m) ≡ lookup k ((j, w) ∷ n)
      → (j == k) ≡ false
      → text_ltb j k ≡ true
  unfolding lookup
  head_above k j v w m n t e d = lookup-some_above j k n v t.0 (ground (arith, text_eq.beq_iff k k))

  same_head :
      (k j : Text) (v w : V) (m n : Dict Text V)
      → IsSorted key ((k, v) ∷ m)
      → IsSorted key ((j, w) ∷ n)
      → ((i : Text) → lookup i ((k, v) ∷ m) ≡ lookup i ((j, w) ∷ n))
      → k ≡ j
  same_head k j v w m n s t e = elim (Bool-cases (k == j)) [
    | inl same ↦ (text_eq.beq_iff k j).0 same
    | inr differ ↦
        let below = head_above j k w v n m s (sym (e j)) differ in
        let above =
          head_above k j v w m n t (e k)
            (ground (arith, text_eq.beq_iff k j, text_eq.beq_iff j k)) in
        true-ne-false above (text_ltb_asymm k j below)
  ]

  same_value :
      (k : Text) (v w : V) (m n : Dict Text V)
      → lookup k ((k, v) ∷ m) ≡ lookup k ((k, w) ∷ n)
      → v ≡ w
  unfolding lookup
  same_value k v w m n e = ground (arith, text_eq.beq_iff k k)

  same_tail :
      (k i : Text) (v w : V) (m n : Dict Text V)
      → IsSorted key ((k, v) ∷ m)
      → IsSorted key ((k, w) ∷ n)
      → lookup i ((k, v) ∷ m) ≡ lookup i ((k, w) ∷ n)
      → lookup i m ≡ lookup i n
  unfolding lookup
  same_tail k i v w m n s t e =
      ground (arith, lookup-above k m s.0, lookup-above k n t.0, text_eq.beq_iff k i)

  -- A sorted list is determined by what is found in it.
  sorted_unique :
      (m n : Dict Text V)
      → IsSorted key m
      → IsSorted key n
      → ((i : Text) → lookup i m ≡ lookup i n)
      → m ≡ n
  unfolding lookup
  sorted_unique [] [] s t e = refl
  sorted_unique [] ((j, w) ∷ n) s t e = ground (arith, e j, text_eq.beq_iff j j)
  sorted_unique ((k, v) ∷ m) [] s t e = ground (arith, e k, text_eq.beq_iff k k)
  sorted_unique ((k, v) ∷ m) ((j, w) ∷ n) s t e =
      let p = same_head k j v w m n s t e in
      let t' = subst (λ x. IsSorted key ((x, w) ∷ n)) (sym p) t in
      let e' = subst (λ x. (i : Text) → lookup i ((k, v) ∷ m) ≡ lookup i ((x, w) ∷ n)) (sym p) e in
      let q = same_value k v w m n (e' k) in
      let r = sorted_unique m n s.1 t.1 (λ i. same_tail k i v w m n s t' (e' i)) in
      λ i. (p i, q i) ∷ r i

  -- Maps that agree sort alike, whatever the order of their entries.
  pub sort_by_name_canonical :
      (m n : Dict Text V)
      → NodupKeys m
      → NodupKeys n
      → ((i : Text) → lookup i m ≡ lookup i n)
      → sort_by_name key m ≡ sort_by_name key n
  sort_by_name_canonical m n u w e =
      sorted_unique _ _ (sort_by_name-IsSorted m u) (sort_by_name-IsSorted n w)
        λ i. lookup-sort_by_name m i u ∙ e i ∙ sym (lookup-sort_by_name n i w)
