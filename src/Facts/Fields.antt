-- ===== src/Facts/Fields.antt =====
-- Dicts of field values, as the commands compare and merge them.
use business_execution_ledge.Base.{
  ℕ, Bool, false, ◌&&◌, Option, none, some, List, [], ◌∷◌, map, ltb, ◌==◌, present, eq_option,
  if◌then◌else◌,
}
use business_execution_ledge.Base.Lists.{any, all, filter}
use business_execution_ledge.Base.Int.{◌==ℤ◌}
use business_execution_ledge.Match.Text.{text_eq}
use business_execution_ledge.Match.Candidates.{sorted}
use business_execution_ledge.Facts.Rows.{Value, text, amount, number, Fields}

abbrev pub value_eq : Value → Value → Bool
value_eq (text s) (text t) = text_eq s t
value_eq (amount a) (amount b) = a ==ℤ b
value_eq (number a) (number b) = a == b
value_eq _ _ = false

-- Two entries of a dict, None included.
abbrev pub entry_eq : Option Value → Option Value → Bool
entry_eq = eq_option value_eq

-- `key in fields` with its value.
abbrev pub get_field : ℕ → Fields → Option (Option Value)
get_field k [] = none
get_field k (x ∷ xs) = if x.0 == k then some x.1 else get_field k xs

abbrev pub holds : Fields → ℕ × Option Value → Bool
holds e x = eq_option entry_eq (get_field x.0 e) (some x.1)

-- `d == e` of two dicts.
unfoldable pub dict_eq : Fields → Fields → Bool
dict_eq d e = all (holds e) d && all (holds d) e

-- `{key: value for key, value in fields.items() if value is not None}`.
abbrev pub incoming_assertion : Fields → Fields
incoming_assertion = filter (λ x. present x.1)

abbrev pub keys : Fields → List ℕ
keys = map (λ x. x.0)

abbrev pub has_field : ℕ → Fields → Bool
has_field k fields = any (λ x. x.0 == k) fields

abbrev pub get_or : Option (Option Value) → Option Value → Option Value
get_or none d = d
get_or (some v) d = v

-- `fields.get(key)`.
abbrev pub value_of : Fields → ℕ → Option Value
value_of fields k = get_or (get_field k fields) none

-- `sorted(fields.keys())`.
unfoldable pub field_names : Fields → List ℕ
field_names fields = sorted ltb (keys fields)

-- `merged.update(fields)`.
unfoldable pub merged : (ℕ → Option Value) → Fields → ℕ → Option Value
merged values fields k = get_or (get_field k fields) (values k)

-- Whether every key is one of the store's fields.
unfoldable pub all_known : List ℕ → Fields → Bool
all_known known fields = all (λ x. any (λ k. k == x.0) known) fields

-- `{field: values[field] for field in names}`.
abbrev pub select : List ℕ → (ℕ → Option Value) → Fields
select names values = map (λ k. (k, values k)) names
