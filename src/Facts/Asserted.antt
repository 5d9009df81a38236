-- ===== src/Facts/Asserted.antt =====
-- What a revision asserted can be read back from its row, although the row holds every field.
use business_execution_ledge.Base.{
  ℕ, ◌≡◌, refl, ◌∙◌, sym, Bool, true, false, ◌&&◌, ◌||◌, not, Option, none, some, List, [], ◌∷◌,
  arith, ltb, ◌==◌, eq_option, present, if◌then◌else◌, Bool-cases, Option-cases, ==_iff, ==_self,
  inl, inr,
}
use mathlib.Core.Path.{subst}
use business_execution_ledge.Base.Lists.{any, all}
use business_execution_ledge.Match.Candidates.{insert_sorted, sorted}
use business_execution_ledge.Facts.Rows.{Value, Fields, Revision}
use business_execution_ledge.Facts.Fields.{
  entry_eq, get_field, holds, dict_eq, keys, merged, select, incoming_assertion, value_of,
}
use business_execution_ledge.Facts.Revise.{asserted_fields, Revise}
use business_execution_ledge.Facts.Create.{Create, initial_revision}
use business_execution_ledge.Facts.Values.{entry_eq_self}

abbrev pub is_key : ℕ → List ℕ → Bool
is_key k ks = any (λ i. i == k) ks

-- The keys of a dict differ.
abbrev pub has_distinct_keys : Fields → Bool
has_distinct_keys [] = true
has_distinct_keys (x ∷ xs) = not (is_key x.0 (keys xs)) && has_distinct_keys xs

is_key-insert_sorted :
    (k i : ℕ) (ks : List ℕ) → is_key k (insert_sorted ltb i ks) ≡ (i == k) || is_key k ks
unfolding insert_sorted
is_key-insert_sorted k i [] = refl
is_key-insert_sorted k i (j ∷ js) = ground (arith, is_key-insert_sorted k i js)

is_key-sorted : (k : ℕ) (ks : List ℕ) → is_key k (sorted ltb ks) ≡ is_key k ks
unfolding sorted
is_key-sorted k [] = refl
is_key-sorted k (i ∷ is) =
    ground (arith, is_key-insert_sorted k i (sorted ltb is), is_key-sorted k is)

get_field-select :
    (k : ℕ) (names : List ℕ) (values : ℕ → Option Value)
    → get_field k (select names values) ≡ (if is_key k names then some (values k) else none)
get_field-select k [] values = refl
get_field-select k (i ∷ is) values = elim (Bool-cases (i == k)) [
  | inl e ↦ rw (e, (==_iff i k).0 e) refl
  | inr e ↦ rw e (get_field-select k is values)
]

get_field-none :
    (k : ℕ) (fields : Fields) → get_field k fields ≡ none → is_key k (keys fields) ≡ false
get_field-none k [] h = refl
get_field-none k (x ∷ xs) h = ground (arith, get_field-none k xs)

-- What a merge leaves under a key of the dict is what a lookup of the key finds.
pub get_field-merged :
    (k : ℕ) (values : ℕ → Option Value) (fields : Fields)
    → is_key k (keys fields) ≡ true
    → get_field k fields ≡ some (merged values fields k)
unfolding merged
get_field-merged k values fields h = elim (Option-cases (get_field k fields)) [
  | inl e ↦ ground (arith, get_field-none k fields e)
  | inr (v, e) ↦ rw e refl
]

all-holds_cons :
    (x : ℕ × Option Value) (xs ys : Fields)
    → is_key x.0 (keys ys) ≡ false
    → all (holds xs) ys ≡ true
    → all (holds (x ∷ xs)) ys ≡ true
all-holds_cons x xs [] h e = refl
all-holds_cons x xs (y ∷ ys) h e = ground (arith, all-holds_cons x xs ys)

-- A dict holds its own entries.
all-holds_self :
    (fields : Fields) → has_distinct_keys fields ≡ true → all (holds fields) fields ≡ true
all-holds_self [] h = refl
all-holds_self (x ∷ xs) h =
    ground (arith, all-holds_cons x xs xs, all-holds_self xs, entry_eq_self x.1, ==_self x.0)

-- `values` are what a lookup in the dict finds.
abbrev pub Agrees : (ℕ → Option Value) → Fields → Type 0
Agrees values fields =
    (k : ℕ) → is_key k (keys fields) ≡ true → get_field k fields ≡ some (values k)

holds-selected :
    (fields : Fields) (values : ℕ → Option Value) (names : List ℕ)
    → Agrees values fields
    → ((k : ℕ) → is_key k names ≡ true → is_key k (keys fields) ≡ true)
    → all (holds fields) (select names values) ≡ true
holds-selected fields values [] a h = refl
holds-selected fields values (k ∷ ks) a h =
    let here : is_key k (keys fields) ≡ true = h k (ground (arith, ==_self k)) in
    rw (a k here, entry_eq_self (values k))
      (holds-selected fields values ks a (λ j e. h j (ground arith)))

selected-holds_entry :
    (fields : Fields) (values : ℕ → Option Value) (names : List ℕ) (y : ℕ × Option Value)
    → get_field y.0 fields ≡ some (values y.0)
    → is_key y.0 names ≡ true
    → holds fields y ≡ true
    → holds (select names values) y ≡ true
selected-holds_entry fields values names y a n h =
    rw (get_field-select y.0 names values, n)
      (subst (λ (o : Option (Option Value)). eq_option entry_eq o (some y.1) ≡ true) a h)

selected-holds :
    (fields : Fields) (values : ℕ → Option Value) (names : List ℕ) (ys : Fields)
    → Agrees values fields
    → ((k : ℕ) → is_key k (keys ys) ≡ true → is_key k names ≡ true)
    → ((k : ℕ) → is_key k (keys ys) ≡ true → is_key k (keys fields) ≡ true)
    → all (holds fields) ys ≡ true
    → all (holds (select names values)) ys ≡ true
selected-holds fields values names [] a n k h = refl
selected-holds fields values names (y ∷ ys) a n k h =
    let here : is_key y.0 (keys (y ∷ ys)) ≡ true = ground (arith, ==_self y.0) in
    ground (
      arith,
      selected-holds_entry fields values names y (a y.0 (k y.0 here)) (n y.0 here),
      selected-holds fields values names ys a (λ j e. n j (ground arith))
          (λ j e. k j (ground arith)),
    )

-- A dict and the columns that it names hold the same entries.
pub dict_eq-selected :
    (fields : Fields) (values : ℕ → Option Value)
    → Agrees values fields
    → has_distinct_keys fields ≡ true
    → (dict_eq (select (sorted ltb (keys fields)) values) fields ≡ true)
      × (dict_eq fields (select (sorted ltb (keys fields)) values) ≡ true)
unfolding dict_eq
dict_eq-selected fields values a d =
    let sorted_keys = λ (k : ℕ). is_key-sorted k (keys fields) in
    let there =
      holds-selected fields values (sorted ltb (keys fields)) a (λ k e. sym (sorted_keys k) ∙ e) in
    let back =
      selected-holds fields values (sorted ltb (keys fields)) fields a (λ k e. sorted_keys k ∙ e)
        (λ k e. e) (all-holds_self fields d) in
    (rw (there, back) refl, rw (there, back) refl)

is_key-incoming :
    (k : ℕ) (fields : Fields)
    → is_key k (keys fields) ≡ false
    → is_key k (keys (incoming_assertion fields)) ≡ false
is_key-incoming k [] h = refl
is_key-incoming k (x ∷ xs) h = ground (arith, is_key-incoming k xs)

distinct-incoming :
    (fields : Fields)
    → has_distinct_keys fields ≡ true
    → has_distinct_keys (incoming_assertion fields) ≡ true
distinct-incoming [] d = refl
distinct-incoming (x ∷ xs) d = ground (arith, distinct-incoming xs, is_key-incoming x.0 xs)

value_of-incoming :
    (fields : Fields)
    → has_distinct_keys fields ≡ true
    → Agrees (value_of fields) (incoming_assertion fields)
value_of-incoming [] d k h = cc
value_of-incoming (x ∷ xs) d k h = elim (Bool-cases (x.0 == k)) [
  | inl e ↦
      let absent : is_key k (keys xs) ≡ false = ground arith in
      elim (Bool-cases (present x.1)) [
        | inl p ↦ rw (p, e) refl
        | inr n ↦ ground (arith, is_key-incoming k xs absent)
      ]
  | inr e ↦ elim (Bool-cases (present x.1)) [
    | inl p ↦ rw (p, e) (value_of-incoming xs (ground arith) k (ground arith))
    | inr n ↦ rw (n, e) (value_of-incoming xs (ground arith) k (ground arith))
  ]
]

-- What an INITIAL revision asserted equals, as a dict, the known values of the create.
pub incoming-asserted :
    (known : List ℕ) (rows : List Revision) (c : Create)
    → has_distinct_keys c.fields ≡ true
    → dict_eq (incoming_assertion c.fields) (asserted_fields known rows (initial_revision c)) ≡ true
unfolding asserted_fields
incoming-asserted known rows c d =
    (dict_eq-selected (incoming_assertion c.fields) (value_of c.fields)
      (value_of-incoming c.fields d) (distinct-incoming c.fields d)).1
