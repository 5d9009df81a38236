-- ===== src/Facts/Append.antt =====
-- `append_revision_against_current` on a sound store.
use business_execution_ledge.Base.{
  ℕ, ◌≤◌, ◌≡◌, refl, true, false, List, [], ◌∷◌, ◌++◌, map, arith, ◌==◌, ==_self,
}
use mathlib.Core.List.{append-nil}
use business_execution_ledge.Base.Lists.{count, filter-append}
use business_execution_ledge.Facts.Rows.{Revision, is_initial}
use business_execution_ledge.Facts.Repository.{is_of, is_current, revisions_of, is_target, retire}
use business_execution_ledge.Facts.Chain.{
  is_chain, has_id, retire_keeps_id, retire_keeps_anchor, retire_keeps_type, count-target,
  follows-retire,
}

pub revisions_of-retire :
    (based b new a : ℕ) (rows : List Revision)
    → revisions_of a (map (retire based b new) rows)
      ≡ map (retire based b new) (revisions_of a rows)
revisions_of-retire based b new a [] = refl
revisions_of-retire based b new a (x ∷ xs) =
    ground (arith, revisions_of-retire based b new a xs, retire_keeps_anchor based b new x)

-- The rows of one anchor are what the UPDATE counts.
pub count-target-revisions_of :
    (based a : ℕ) (rows : List Revision)
    → count (is_target based a) (revisions_of a rows) ≡ count (is_target based a) rows
count-target-revisions_of based a [] = refl
count-target-revisions_of based a (x ∷ xs) = ground (arith, count-target-revisions_of based a xs)

-- The UPDATE leaves the rows of another anchor alone, and all rows when it finds none.
pub retire_other :
    (based b new a : ℕ) (rows : List Revision)
    → (a == b) ≡ false
    → map (retire based b new) (revisions_of a rows) ≡ revisions_of a rows
retire_other based b new a [] h = refl
retire_other based b new a (x ∷ xs) h = ground (arith, retire_other based b new a xs)

pub retire_none :
    (based b new : ℕ) (rows : List Revision)
    → count (is_target based b) rows ≡ 0
    → map (retire based b new) rows ≡ rows
retire_none based b new [] h = refl
retire_none based b new (x ∷ xs) h = ground (arith, retire_none based b new xs)

pub count-has_id-retire :
    (based b new i : ℕ) (rows : List Revision)
    → count (has_id i) (map (retire based b new) rows) ≡ count (has_id i) rows
count-has_id-retire based b new i [] = refl
count-has_id-retire based b new i (x ∷ xs) =
    ground (arith, count-has_id-retire based b new i xs, retire_keeps_id based b new x)

-- A chain has one row at most that the UPDATE can find.
pub count-target_bounded :
    (based a : ℕ) (rows : List Revision) → is_chain rows ≡ true → count (is_target based a) rows ≤ 1
count-target_bounded based a [] h = omega arith
count-target_bounded based a (x ∷ xs) h = ground (arith, count-target based a x xs)

pub is_chain-retire :
    (based a : ℕ) (r : Revision) (rows : List Revision)
    → is_current r ≡ true
    → is_initial r.revision_type ≡ false
    → is_chain rows ≡ true
    → count (is_target based a) rows ≡ 1
    → is_chain (map (retire based a r.id) rows ++ r ∷ []) ≡ true
is_chain-retire based a r [] c t h n = ground arith
is_chain-retire based a r (x ∷ xs) c t h n =
    ground (arith, follows-retire based a r x xs, retire_keeps_type based a r.id x)

-- The rows of an anchor after a write that succeeded.
pub revisions_of-appended :
    (based : ℕ) (r : Revision) (rows : List Revision)
    → revisions_of r.anchor_id (map (retire based r.anchor_id r.id) rows ++ r ∷ [])
      ≡ map (retire based r.anchor_id r.id) (revisions_of r.anchor_id rows) ++ r ∷ []
revisions_of-appended based r rows =
    rw
      (
        filter-append (is_of r.anchor_id) (map (retire based r.anchor_id r.id) rows) (r ∷ []),
        revisions_of-retire based r.anchor_id r.id r.anchor_id rows,
        ==_self r.anchor_id,
      )
      refl

pub revisions_of-appended_other :
    (based a : ℕ) (r : Revision) (rows : List Revision)
    → (a == r.anchor_id) ≡ false
    → revisions_of a (map (retire based r.anchor_id r.id) rows ++ r ∷ []) ≡ revisions_of a rows
revisions_of-appended_other based a r rows h =
    let other : (r.anchor_id == a) ≡ false = ground arith in
    rw
      (
        filter-append (is_of a) (map (retire based r.anchor_id r.id) rows) (r ∷ []),
        revisions_of-retire based r.anchor_id r.id a rows,
        retire_other based r.anchor_id r.id a rows h,
        other,
        append-nil,
      )
      refl
