-- ===== src/Facts/Refine.antt =====
-- The conditional write of the repositories implements the abstract log, and keeps a store sound.
use business_execution_ledge.Base.{
  ℕ, ◌≤◌, ◌≡◌, refl, ap, true, List, [], ◌∷◌, ◌++◌, map, arith, ◌==◌, if◌then◌else◌, Bool-cases,
  inl, inr,
}
use business_execution_ledge.Base.Lists.{count, count-append}
use business_execution_ledge.Facts.Rows.{Revision, ok}
use business_execution_ledge.Facts.Repository.{
  revisions_of, retire, is_appendable, append_revision_against_current,
}
use business_execution_ledge.Facts.Chain.{is_chain, has_id, IsSound}
use business_execution_ledge.Facts.Append.{
  count-target-revisions_of, count-has_id-retire, is_chain-retire, revisions_of-appended,
  revisions_of-appended_other,
}
use business_execution_ledge.Facts.History.{
  entry_of, history, is_newest, append_if_newest, count-newest, history-appended, append-written,
  append-conflict,
}

-- The logs after a write: that of the revision's anchor has the revision more, the others stay.
pub history-appended_at :
    (based : ℕ) (r : Revision) (rows : List Revision) (a : ℕ)
    → history a (map (retire based r.anchor_id r.id) rows ++ r ∷ [])
      ≡ (if a == r.anchor_id then history r.anchor_id rows ++ entry_of r ∷ [] else history a rows)
history-appended_at based r rows a = elim (Bool-cases (a == r.anchor_id)) [
  | inl e ↦
      let same : a ≡ r.anchor_id = ground arith in rw (e, same) (history-appended based r rows)
  | inr e ↦ rw e (ap (map entry_of) (revisions_of-appended_other based a r rows e))
]

pub history_at :
    (b a : ℕ) (rows : List Revision)
    → history a rows ≡ (if a == b then history b rows else history a rows)
history_at b a rows = elim (Bool-cases (a == b)) [
  | inl e ↦ let same : a ≡ b = ground arith in rw (e, same) refl
  | inr e ↦ rw e refl
]

-- On a sound store and for a revision that may be appended, the conditional write answers and
-- changes the log of each anchor `a` as `append_if_newest` does: it reports true and adds the
-- revision as the last entry of its anchor's log when the newest entry there is the one that the
-- revision is based on, and otherwise reports false and leaves that log as it is. The log of every
-- other anchor stays as it is.
pub append_revision-refines :
    (r : Revision) (based : ℕ) (rows : List Revision) (a : ℕ)
    → IsSound rows
    → is_appendable r ≡ true
    → let (answer, rows') = append_revision_against_current r based rows in
      let (written, log) = append_if_newest based (entry_of r) (history r.anchor_id rows) in
      (answer ≡ ok written) × (history a rows' ≡ (if a == r.anchor_id then log else history a rows))
unfolding append_if_newest
append_revision-refines r based rows a sound able =
    elim (Bool-cases (is_newest based (history r.anchor_id rows))) [
      | inl h ↦
          rw (append-written r based rows able h (sound.chains r.anchor_id), h)
            (refl, history-appended_at based r rows a)
      | inr h ↦
          rw (append-conflict r based rows able h (sound.chains r.anchor_id), h)
            (refl, history_at r.anchor_id a rows)
    ]

chains-appended :
    (based : ℕ) (r : Revision) (rows : List Revision) (a : ℕ)
    → IsSound rows
    → is_appendable r ≡ true
    → is_newest based (history r.anchor_id rows) ≡ true
    → is_chain (revisions_of a (map (retire based r.anchor_id r.id) rows ++ r ∷ [])) ≡ true
chains-appended based r rows a sound able h = elim (Bool-cases (a == r.anchor_id)) [
  | inl e ↦
      let same : a ≡ r.anchor_id = ground arith in
      rw (same, revisions_of-appended based r rows)
        (is_chain-retire based r.anchor_id r (revisions_of r.anchor_id rows) (ground arith)
          (ground arith) (sound.chains r.anchor_id)
          (rw
            (
              count-target-revisions_of based r.anchor_id rows,
              count-newest based r.anchor_id rows (sound.chains r.anchor_id),
              h,
            )
            refl))
  | inr e ↦ rw (revisions_of-appended_other based a r rows e) (sound.chains a)
]

distinct-appended :
    (based : ℕ) (r : Revision) (rows : List Revision) (i : ℕ)
    → IsSound rows
    → count (has_id r.id) rows ≡ 0
    → count (has_id i) (map (retire based r.anchor_id r.id) rows ++ r ∷ []) ≤ 1
distinct-appended based r rows i sound new = elim (Bool-cases (r.id == i)) [
  | inl e ↦
      let same : i ≡ r.id = ground arith in
      rw
        (
          same,
          count-append (has_id r.id) (map (retire based r.anchor_id r.id) rows) (r ∷ []),
          count-has_id-retire based r.anchor_id r.id r.id rows,
          new,
        )
        (ground arith)
  | inr e ↦
      rw
        (
          count-append (has_id i) (map (retire based r.anchor_id r.id) rows) (r ∷ []),
          count-has_id-retire based r.anchor_id r.id i rows,
        )
        (ground (arith, sound.distinct i))
]

-- The conditional write keeps a store sound, whichever way it goes, when the revision's id is new.
pub append_revision-IsSound :
    (r : Revision) (based : ℕ) (rows : List Revision)
    → IsSound rows
    → is_appendable r ≡ true
    → count (has_id r.id) rows ≡ 0
    → IsSound (append_revision_against_current r based rows).1
append_revision-IsSound r based rows sound able new =
    elim (Bool-cases (is_newest based (history r.anchor_id rows))) [
      | inl h ↦ rw (append-written r based rows able h (sound.chains r.anchor_id)) (record {
        chains = λ a. chains-appended based r rows a sound able h;
        distinct = λ i. distinct-appended based r rows i sound new;
      })
      | inr h ↦ rw (append-conflict r based rows able h (sound.chains r.anchor_id)) sound
    ]
