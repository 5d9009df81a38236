-- ===== src/Facts/Chain.antt =====
-- What the rows of a store look like: those of one anchor are a chain in the order they were
-- written, from the INITIAL one to the current one.
use business_execution_ledge.Base.{
  ℕ, ◌≤◌, ◌≡◌, Bool, true, false, ◌&&◌, not, Option, some, List, [], ◌∷◌, ◌++◌, map, arith, ◌==◌,
  present, if◌then◌else◌,
}
use business_execution_ledge.Base.Lists.{count}
use business_execution_ledge.Facts.Rows.{Revision, is_initial}
use business_execution_ledge.Facts.Repository.{
  is_of, is_current, revisions_of, same_id, is_target, retire,
}

-- `s` is what the row before the list says supersedes it.
abbrev pub follows : Option ℕ → List Revision → Bool
follows s [] = not (present s)
follows s (x ∷ xs) =
    same_id s (some x.id)
    && (not (is_initial x.revision_type) && follows x.superseded_by_revision_id xs)

abbrev pub is_chain : List Revision → Bool
is_chain [] = true
is_chain (x ∷ xs) = is_initial x.revision_type && follows x.superseded_by_revision_id xs

abbrev pub has_id : ℕ → Revision → Bool
has_id i r = r.id == i

pub record IsSound (rows : List Revision) : Type 0 where
  pub chains : (a : ℕ) → is_chain (revisions_of a rows) ≡ true
  pub distinct : (i : ℕ) → count (has_id i) rows ≤ 1

abbrev pub last : Revision → List Revision → Revision
last x [] = x
last x (y ∷ ys) = last y ys

-- A chain and the conditional UPDATE.
pub retire_keeps_id : (based a new : ℕ) (r : Revision) → (retire based a new r).id ≡ r.id
retire_keeps_id based a new r = ground arith

pub retire_keeps_anchor :
    (based a new : ℕ) (r : Revision) → (retire based a new r).anchor_id ≡ r.anchor_id
retire_keeps_anchor based a new r = ground arith

pub retire_keeps_type :
    (based a new : ℕ) (r : Revision) → (retire based a new r).revision_type ≡ r.revision_type
retire_keeps_type based a new r = ground arith

pub count-target :
    (based a : ℕ) (x : Revision) (xs : List Revision)
    → follows x.superseded_by_revision_id xs ≡ true
    → count (is_target based a) (x ∷ xs)
      ≡ (if is_of a (last x xs) && (last x xs).id == based then 1 else 0)
count-target based a x [] h = ground arith
count-target based a x (y ∷ ys) h = ground (arith, count-target based a y ys)

pub follows-retire :
    (based a : ℕ) (r x : Revision) (xs : List Revision)
    → is_current r ≡ true
    → is_initial r.revision_type ≡ false
    → follows x.superseded_by_revision_id xs ≡ true
    → count (is_target based a) (x ∷ xs) ≡ 1
    → follows
        (retire based a r.id x).superseded_by_revision_id
        (map (retire based a r.id) xs ++ r ∷ [])
      ≡ true
follows-retire based a r x [] c t h n = ground arith
follows-retire based a r x (y ∷ ys) c t h n = ground (
  arith,
  follows-retire based a r y ys,
  retire_keeps_id based a r.id y,
  retire_keeps_type based a r.id y,
)
