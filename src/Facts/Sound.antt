-- ===== src/Facts/Sound.antt =====
-- Every command keeps a store sound: of each anchor one chain of revisions, from an INITIAL one to
-- one current one.
use business_execution_ledge.Base.{ℕ, ◌≡◌, refl, Bool, false, Option, none, some, List}
use mathlib.Core.Path.{subst}
use business_execution_ledge.Base.Lists.{count}
use business_execution_ledge.Facts.Rows.{
  Fields, Revision, is_initial, Anchor, Store, Result, ok, err,
}
use business_execution_ledge.Facts.Revise.{Revise, prepare, perform, apply_revision}
use business_execution_ledge.Facts.Create.{
  Create, initial_revision, create_new, create_with, find_by_identity, create_fact,
}
use business_execution_ledge.Facts.Chain.{has_id, IsSound}
use business_execution_ledge.Facts.Walk.{IsSound-started}
use business_execution_ledge.Facts.Outcome.{Commits, apply_revision-refines}
use business_execution_ledge.Facts.Created.{IsFresh}

module _ {I : Type 0} (known : List ℕ) (validate : Fields → Result Unit)
    (check_fact : Anchor I → Fields → Result Unit) where
  perform-IsSound :
      (rival : Store I → Store I) (c : Revise) (s : Store I)
      (p : Result ((Anchor I × Revision) × Option Revision))
      → prepare known validate check_fact c s ≡ p
      → is_initial c.revision_type ≡ false
      → IsSound s.revisions
      → Commits c s (rival s)
      → IsSound (perform c s (rival s) p).1.revisions
  unfolding apply_revision
  perform-IsSound rival c s (err e) q n sound commits = sound
  perform-IsSound rival c s (ok ((x, r), none)) q n sound commits = sound
  perform-IsSound rival c s (ok ((x, r), some new)) q n sound commits =
      subst
        (λ (w : Result ((Anchor I × Revision) × Option Revision)).
          IsSound (perform c s (rival s) w).1.revisions)
        q
        (apply_revision-refines known validate check_fact rival c s x r new c.anchor_id q n
          commits).2

  -- A supplement or a correction keeps the store sound, however it ends and whatever other sessions
  -- commit before its write, as `Commits` says.
  pub apply_revision-IsSound :
      (rival : Store I → Store I) (c : Revise) (s : Store I)
      → is_initial c.revision_type ≡ false
      → IsSound s.revisions
      → Commits c s (rival s)
      → IsSound (apply_revision known validate check_fact rival c s).1.revisions
  unfolding apply_revision
  apply_revision-IsSound rival c s n sound commits =
      perform-IsSound rival c s (prepare known validate check_fact c s) refl n sound commits

module _ {I : Type 0} where
  create_with-IsSound :
      (known : List ℕ) (identity : I) (c : Create) (s : Store I)
      (found : Option (Anchor I × Revision))
      → IsFresh c s
      → count (has_id c.rev_id) s.revisions ≡ 0
      → IsSound s.revisions
      → IsSound (create_with known identity c s found).1.revisions
  unfolding create_new
  create_with-IsSound known identity c s none fresh new sound =
      IsSound-started (initial_revision c) s.revisions sound refl refl fresh.no_rows new
  create_with-IsSound known identity c s (some fact) fresh new sound = sound

  -- A create keeps the store sound, however it ends, when its two ids are new.
  pub create_fact-IsSound :
      (known : List ℕ) (is_same : I → Bool) (identity : I) (c : Create) (s : Store I)
      → IsFresh c s
      → count (has_id c.rev_id) s.revisions ≡ 0
      → IsSound s.revisions
      → IsSound (create_fact known is_same identity c s).1.revisions
  unfolding create_fact
  create_fact-IsSound known is_same identity c s fresh new sound =
      create_with-IsSound known identity c s (find_by_identity is_same s) fresh new sound
