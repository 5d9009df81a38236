-- ===== src/Facts/History.antt =====
-- The abstract view of an anchor: a log of assertions, which only grows at its end. It forgets how
-- the rows are linked, and the rows of other anchors that stand between them.
use business_execution_ledge.Base.{
  ℕ, ◌≡◌, refl, Bool, true, false, Option, none, some, List, [], ◌∷◌, ◌++◌, map, arith, ◌==◌,
  if◌then◌else◌, Bool-cases, ap, inl, inr,
}
use business_execution_ledge.Base.Lists.{all, count, all-filter_self}
use business_execution_ledge.Facts.Rows.{Value, Revision, RevisionType, ok}
use business_execution_ledge.Facts.Repository.{
  is_of, revisions_of, is_target, retire, is_appendable, append_revision_against_current,
}
use business_execution_ledge.Facts.Chain.{is_chain, last, count-target}
use business_execution_ledge.Facts.Append.{
  count-target-revisions_of, retire_none, revisions_of-appended,
}

pub record Entry : Type 0 where
  pub id : ℕ
  pub revision_type : RevisionType
  pub values : ℕ → Option Value
  pub source_fragment_id : Option ℕ
  pub created_at : ℕ
  pub asserted_field_names : Option (List ℕ)

abbrev pub entry_of : Revision → Entry
entry_of r = record {
  id = r.id;
  revision_type = r.revision_type;
  values = r.values;
  source_fragment_id = r.source_fragment_id;
  created_at = r.created_at;
  asserted_field_names = r.asserted_field_names;
}

abbrev pub history : ℕ → List Revision → List Entry
history a rows = map entry_of (revisions_of a rows)

abbrev pub newest_from : Entry → List Entry → Entry
newest_from e [] = e
newest_from e (d ∷ ds) = newest_from d ds

abbrev pub newest : List Entry → Option Entry
newest [] = none
newest (e ∷ es) = some (newest_from e es)

abbrev pub is_newest : ℕ → List Entry → Bool
is_newest i [] = false
is_newest i (e ∷ es) = (newest_from e es).id == i

-- What the conditional write promises: compare the newest entry, and add one to the log.
unfoldable pub append_if_newest : ℕ → Entry → List Entry → Bool × List Entry
append_if_newest based e h = if is_newest based h then (true, h ++ e ∷ []) else (false, h)

pub newest_from-last :
    (x : Revision) (xs : List Revision)
    → newest_from (entry_of x) (map entry_of xs) ≡ entry_of (last x xs)
newest_from-last x [] = refl
newest_from-last x (y ∷ ys) = newest_from-last y ys

is_of-last :
    (a : ℕ) (x : Revision) (xs : List Revision)
    → all (is_of a) (x ∷ xs) ≡ true
    → is_of a (last x xs) ≡ true
is_of-last a x [] h = ground arith
is_of-last a x (y ∷ ys) h = is_of-last a y ys (ground arith)

count-newest_of :
    (based a : ℕ) (rows : List Revision)
    → all (is_of a) rows ≡ true
    → is_chain rows ≡ true
    → count (is_target based a) rows ≡ (if is_newest based (map entry_of rows) then 1 else 0)
count-newest_of based a [] own h = refl
count-newest_of based a (x ∷ xs) own h = ground (
  arith,
  count-target based a x xs,
  is_of-last a x xs,
  ap (λ (e : Entry). e.id) (newest_from-last x xs),
)

-- The UPDATE finds a row exactly when the log's newest entry is the one it names.
pub count-newest :
    (based a : ℕ) (rows : List Revision)
    → is_chain (revisions_of a rows) ≡ true
    → count (is_target based a) rows ≡ (if is_newest based (history a rows) then 1 else 0)
count-newest based a rows h =
    rw (← count-target-revisions_of based a rows)
      (count-newest_of based a (revisions_of a rows) (all-filter_self (is_of a) rows) h)

history-retire :
    (based b new : ℕ) (rows : List Revision)
    → map entry_of (map (retire based b new) rows) ≡ map entry_of rows
history-retire based b new [] = refl
history-retire based b new (x ∷ xs) = elim (Bool-cases (is_target based b x)) [
  | inl t ↦ rw (t, history-retire based b new xs) refl
  | inr f ↦ rw (f, history-retire based b new xs) refl
]

map-snoc :
    (xs : List Revision) (r : Revision)
    → map entry_of (xs ++ r ∷ []) ≡ map entry_of xs ++ entry_of r ∷ []
map-snoc [] r = refl
map-snoc (x ∷ xs) r = ap (λ (l : List Entry). entry_of x ∷ l) (map-snoc xs r)

pub history-appended :
    (based : ℕ) (r : Revision) (rows : List Revision)
    → history r.anchor_id (map (retire based r.anchor_id r.id) rows ++ r ∷ [])
      ≡ history r.anchor_id rows ++ entry_of r ∷ []
history-appended based r rows =
    rw
      (
        revisions_of-appended based r rows,
        map-snoc (map (retire based r.anchor_id r.id) (revisions_of r.anchor_id rows)) r,
        history-retire based r.anchor_id r.id (revisions_of r.anchor_id rows),
      )
      refl

-- What the conditional write does to the rows: nothing, or one more in the chain.
pub append-written :
    (r : Revision) (based : ℕ) (rows : List Revision)
    → is_appendable r ≡ true
    → is_newest based (history r.anchor_id rows) ≡ true
    → is_chain (revisions_of r.anchor_id rows) ≡ true
    → append_revision_against_current r based rows
      ≡ (ok true, map (retire based r.anchor_id r.id) rows ++ r ∷ [])
unfolding append_revision_against_current
append-written r based rows able h chain =
    rw (able, count-newest based r.anchor_id rows chain, h) refl

pub append-conflict :
    (r : Revision) (based : ℕ) (rows : List Revision)
    → is_appendable r ≡ true
    → is_newest based (history r.anchor_id rows) ≡ false
    → is_chain (revisions_of r.anchor_id rows) ≡ true
    → append_revision_against_current r based rows ≡ (ok false, rows)
unfolding append_revision_against_current
append-conflict r based rows able h chain =
    let none_found : count (is_target based r.anchor_id) rows ≡ 0 =
      rw (count-newest based r.anchor_id rows chain, h) refl in
    rw (able, none_found, retire_none based r.anchor_id r.id rows none_found) refl
