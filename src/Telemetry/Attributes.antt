-- ===== src/Telemetry/Attributes.antt =====
-- The merging of attributes: mergeAttributes of otel/attributes.go and of internal/httpotel, and
-- eventAttributes of slogobserver/attributes.go. Each of them keeps the attributes so far in a slice,
-- and the place of each key in a map.
pub mod Merged
use clientkit.Prelude.{
  ℕ, zero, suc, Bool, true, false, not, ◌&&◌, ◌||◌, Option, none, some, List, [], ◌∷◌, ◌++◌, length,
  ◌==◌, if◌then◌else◌,
}
use clientkit.Text.{Text, text_eq, codes}
use clientkit.Text.Trim.{trim_space}
use clientkit.Dict.{Dict, lookup, insert}
use clientkit.Failure.{FailureClass, failure_none}
use clientkit.Opskit.{Attribute}
use clientkit.Projection.{class_text}

abbrev pub is_blank : Text → Bool
is_blank key = trim_space key == []

module _ {ℓ} {V : Type ℓ} where
  -- merged[position] = value; a position out of range does not occur.
  unfoldable pub set_at : ℕ → Text × V → List (Text × V) → List (Text × V)
  set_at position value [] = []
  set_at zero value (x ∷ xs) = value ∷ xs
  set_at (suc position) value (x ∷ xs) = x ∷ set_at position value xs

  abbrev pub place :
      Text × V → Option ℕ → List (Text × V) → Dict Text ℕ → List (Text × V) × Dict Text ℕ
  place value (some position) merged positions = (set_at position value merged, positions)
  place (key, value) none merged positions =
      (merged ++ (key, value) ∷ [], insert key (length merged) positions)

  -- The body of the loop.
  unfoldable pub merge_one :
      Text × V → List (Text × V) → Dict Text ℕ → List (Text × V) × Dict Text ℕ
  merge_one (key, value) merged positions =
      if is_blank key
      then (merged, positions)
      else place (key, value) (lookup key positions) merged positions

  unfoldable pub merge_loop : List (Text × V) → List (Text × V) → Dict Text ℕ → List (Text × V)
  merge_loop [] merged positions = merged
  merge_loop (value ∷ values) merged positions =
      let (merged', positions') = merge_one value merged positions in
      merge_loop values merged' positions'

  -- mergeAttributes of internal/httpotel.
  unfoldable pub merge_attributes : List (Text × V) → List (Text × V)
  merge_attributes values = merge_loop values [] []

  unfoldable pub flatten_groups : List (List (Text × V)) → List (Text × V)
  flatten_groups [] = []
  flatten_groups (group ∷ groups) = group ++ flatten_groups groups

  -- mergeAttributes of otel, which takes groups.
  unfoldable pub merge_groups : List (List (Text × V)) → List (Text × V)
  merge_groups groups = merge_attributes (flatten_groups groups)

abbrev pub pair_of : Attribute → Text × Text
pair_of attribute = (attribute.key, attribute.value)

unfoldable pub pairs : List Attribute → List (Text × Text)
pairs [] = []
pairs (attribute ∷ attributes) = pair_of attribute ∷ pairs attributes

-- eventAttributes of slogobserver.
unfoldable pub event_attributes : List Attribute → List (Text × Text)
event_attributes attributes = merge_attributes (pairs attributes)

abbrev pub attribute_failure_class : Text
attribute_failure_class = codes "clientkit.failure.class"

abbrev is_reserved : Text → Bool
is_reserved key =
    is_blank key || key == codes "client.failure_class" || key == attribute_failure_class

unfoldable pub convert_attributes : List Attribute → List (Text × Text)
convert_attributes [] = []
convert_attributes (attribute ∷ attributes) =
    let rest = convert_attributes attributes in
    if is_reserved attribute.key then rest else (attribute.key, attribute.value) ∷ rest

unfoldable pub without_failure_class : List (Text × Text) → List (Text × Text)
without_failure_class [] = []
without_failure_class ((key, value) ∷ attributes) =
    let rest = without_failure_class attributes in
    if key == attribute_failure_class then rest else (key, value) ∷ rest

unfoldable pub failure_class_attributes : FailureClass → List (Text × Text)
failure_class_attributes failure_none = []
failure_class_attributes class = (attribute_failure_class, class_text class) ∷ []

unfoldable pub identity_attributes : Text → Text → Text → List (Text × Text)
identity_attributes name protocol operation =
    (codes "clientkit.client.name", name)
    ∷ (codes "clientkit.protocol", protocol)
    ∷ (codes "clientkit.operation", operation)
    ∷ []
