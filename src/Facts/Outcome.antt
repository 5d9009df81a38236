-- ===== src/Facts/Outcome.antt =====
-- What `_apply_revision` leaves in the store when other sessions commit between its reads and its
-- write, and what a second call with the same evidence does.
use business_execution_ledge.Base.{
  ℕ, ◌≡◌, refl, ap, ◌∙◌, Bool, true, false, some, List, [], ◌∷◌, ◌++◌, map, arith, ◌==◌,
  if◌then◌else◌, Bool-cases, inl, inr,
}
use mathlib.Core.Path.{subst}
use business_execution_ledge.Base.Lists.{find, count}
use business_execution_ledge.Facts.Rows.{
  Fields, Revision, is_initial, Anchor, Store, superseded_concurrently, Result, ok, err, FactResult,
}
use business_execution_ledge.Facts.Repository.{
  is_current, revisions_of, is_target, retire, is_appendable, get_anchor, get, get_current_revision,
}
use business_execution_ledge.Facts.Revise.{
  Revise, new_revision, prepare, write_revision, apply_revision,
}
use business_execution_ledge.Facts.Chain.{is_chain, has_id, IsSound, last}
use business_execution_ledge.Facts.Append.{
  revisions_of-appended, is_chain-retire, count-target-revisions_of,
}
use business_execution_ledge.Facts.History.{
  entry_of, history, is_newest, append_if_newest, append-written, append-conflict, count-newest,
}
use business_execution_ledge.Facts.Refine.{append_revision-IsSound, history-appended_at, history_at}
use business_execution_ledge.Facts.Walk.{find-current-last, find-and}
use business_execution_ledge.Facts.Command.{prepare-IsPlanned}

last-snoc : (x : Revision) (xs : List Revision) (r : Revision) → last x (xs ++ r ∷ []) ≡ r
last-snoc x [] r = refl
last-snoc x (y ∷ ys) r = last-snoc y ys r

current-snoc :
    (xs : List Revision) (r : Revision)
    → is_chain (xs ++ r ∷ []) ≡ true
    → find is_current (xs ++ r ∷ []) ≡ some r
current-snoc [] r h = ground arith
current-snoc (x ∷ xs) r h =
    find-current-last x (xs ++ r ∷ []) (ground arith)
    ∙ ap (λ (y : Revision). some y) (last-snoc x xs r)

-- After a write that succeeded, the revision written is the current one.
pub current-appended :
    (based : ℕ) (r : Revision) (rows : List Revision)
    → IsSound rows
    → is_appendable r ≡ true
    → is_newest based (history r.anchor_id rows) ≡ true
    → get_current_revision r.anchor_id (map (retire based r.anchor_id r.id) rows ++ r ∷ []) ≡ some r
unfolding get_current_revision
current-appended based r rows sound able h =
    let one : count (is_target based r.anchor_id) (revisions_of r.anchor_id rows) ≡ 1 =
      rw
        (
          count-target-revisions_of based r.anchor_id rows,
          count-newest based r.anchor_id rows (sound.chains r.anchor_id),
          h,
        )
        refl in
    find-and r.anchor_id is_current (map (retire based r.anchor_id r.id) rows ++ r ∷ [])
    ∙ rw (revisions_of-appended based r rows) (
        current-snoc (map (retire based r.anchor_id r.id) (revisions_of r.anchor_id rows)) r (
          is_chain-retire based r.anchor_id r (revisions_of r.anchor_id rows) (ground arith)
            (ground arith) (sound.chains r.anchor_id) one))

-- The result of a call that has written.
abbrev pub wrote : {I : Type 0} → Anchor I → Revision → FactResult I
wrote x r = record {
  anchor = x;
  current = r;
  created = false;
  revision_written = true;
  replay = false;
  corroborating = false;
}

abbrev pub outcome : {I : Type 0} → Bool → Anchor I → Revision → Result (FactResult I)
outcome true x r = ok (wrote x r)
outcome false x r = err superseded_concurrently

module _ {I : Type 0} where
  pub get-appended :
      (based : ℕ) (r : Revision) (t : Store I) (x : Anchor I)
      → get_anchor r.anchor_id t ≡ some x
      → get_current_revision r.anchor_id (map (retire based r.anchor_id r.id) t.revisions ++ r ∷ [])
        ≡ some r
      → get r.anchor_id
          (record t { revisions = map (retire based r.anchor_id r.id) t.revisions ++ r ∷ [] })
        ≡ some (x, r)
  unfolding get
  get-appended based r t x a c = ground (arith, a, c)

  -- The write itself, in the store `t` that it finds.
  pub write_revision-written :
      (c : Revise) (r : Revision) (t : Store I) (x : Anchor I)
      → IsSound t.revisions
      → c.anchor_id ≡ r.anchor_id
      → is_appendable r ≡ true
      → get_anchor c.anchor_id t ≡ some x
      → is_newest c.based_on_revision_id (history r.anchor_id t.revisions) ≡ true
      → write_revision c r t ≡ (
        ok (wrote x r),
        record t {
          revisions = map (retire c.based_on_revision_id r.anchor_id r.id) t.revisions ++ r ∷ [];
        },
      )
  unfolding write_revision
  write_revision-written c r t x sound e able a h =
      rw
        (
          append-written r c.based_on_revision_id t.revisions able h (sound.chains r.anchor_id),
          e,
          get-appended c.based_on_revision_id r t x (rw (← e) a)
              (current-appended c.based_on_revision_id r t.revisions sound able h),
        )
        refl

  pub write_revision-conflict :
      (c : Revise) (r : Revision) (t : Store I)
      → IsSound t.revisions
      → is_appendable r ≡ true
      → is_newest c.based_on_revision_id (history r.anchor_id t.revisions) ≡ false
      → write_revision c r t ≡ (err superseded_concurrently, t)
  unfolding write_revision
  write_revision-conflict c r t sound able h =
      rw (append-conflict r c.based_on_revision_id t.revisions able h (sound.chains r.anchor_id))
        refl

  pub write_revision-refines :
      (c : Revise) (r : Revision) (t : Store I) (x : Anchor I) (a : ℕ)
      → IsSound t.revisions
      → c.anchor_id ≡ r.anchor_id
      → is_appendable r ≡ true
      → get_anchor c.anchor_id t ≡ some x
      → count (has_id r.id) t.revisions ≡ 0
      → let (result, s') = write_revision c r t in
        let (written, log) =
          append_if_newest c.based_on_revision_id (entry_of r) (history r.anchor_id t.revisions) in
        (result ≡ outcome written x r)
        × (history a s'.revisions ≡ (if a == r.anchor_id then log else history a t.revisions))
        × IsSound s'.revisions
        × (s' ≡ record t { revisions = s'.revisions })
  unfolding append_if_newest
  write_revision-refines c r t x a sound e able here new =
      let kept = append_revision-IsSound r c.based_on_revision_id t.revisions sound able new in
      elim (Bool-cases (is_newest c.based_on_revision_id (history r.anchor_id t.revisions))) [
        | inl h ↦
            rw (write_revision-written c r t x sound e able here h, h)
              (
                refl,
                history-appended_at c.based_on_revision_id r t.revisions a,
                subst (λ (w : Result Bool × List Revision). IsSound w.1)
                    (append-written r c.based_on_revision_id t.revisions able h
                      (sound.chains r.anchor_id))
                    kept,
                refl,
              )
        | inr h ↦
            rw (write_revision-conflict c r t sound able h, h)
              (refl, history_at r.anchor_id a t.revisions, sound, refl)
      ]

-- What other sessions commit while a command runs: the store stays sound, the fact and the fragments
-- stay, and nobody uses the command's new id.
pub record Commits {I : Type 0} (c : Revise) (s t : Store I) : Type 0 where
  pub sound : IsSound t.revisions
  pub keeps_anchor : get_anchor c.anchor_id t ≡ get_anchor c.anchor_id s
  pub new_id : count (has_id c.rev_id) t.revisions ≡ 0

pub get_anchor-get :
    {I : Type 0} (a : ℕ) (s : Store I) (x : Anchor I) (r : Revision)
    → get a s ≡ some (x, r)
    → get_anchor a s ≡ some x
unfolding get
get_anchor-get a s x r h = ground (arith, h)

module _ {I : Type 0} (known : List ℕ) (validate : Fields → Result Unit)
    (check_fact : Anchor I → Fields → Result Unit) where
  -- A command that has read the fact and is about to write decides by the log that it finds when it
  -- writes, which other sessions may have extended: where the newest entry is still the revision it
  -- is based on, it reports the fact with the new revision, and the log has that one entry more;
  -- otherwise it reports a concurrent supersession, and the log is as it was. The log of any other
  -- anchor `a` stays, the store stays sound, and nothing but revisions is written. The type is not
  -- INITIAL, and the other sessions commit as `Commits` says.
  pub apply_revision-refines :
      (rival : Store I → Store I) (c : Revise) (s : Store I) (x : Anchor I) (r new : Revision)
      (a : ℕ)
      → prepare known validate check_fact c s ≡ ok ((x, r), some new)
      → is_initial c.revision_type ≡ false
      → Commits c s (rival s)
      → let t = rival s in
        let (result, s') = apply_revision known validate check_fact rival c s in
        let (written, log) =
          append_if_newest c.based_on_revision_id
            (entry_of new)
            (history c.anchor_id t.revisions) in
        (result ≡ outcome written x new)
        × (history a s'.revisions ≡ (if a == c.anchor_id then log else history a t.revisions))
        × IsSound s'.revisions
        × (s' ≡ record t { revisions = s'.revisions })
  unfolding apply_revision append_if_newest
  apply_revision-refines rival c s x r new a p not_initial commits =
      let planned = prepare-IsPlanned known validate check_fact c s (x, r) new p in
      let t = rival s in
      let made = new_revision c planned.current in
      let here : get_anchor c.anchor_id t ≡ some x =
        commits.keeps_anchor ∙ get_anchor-get c.anchor_id s x r planned.is_the_fact in
      rw (p, planned.is_merged)
        (write_revision-refines c made t x a commits.sound refl (ground arith) here commits.new_id)
