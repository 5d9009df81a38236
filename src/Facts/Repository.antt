-- ===== src/Facts/Repository.antt =====
-- ContractItemRepository, and the same methods of ContractRepository, SalesContractRepository and
-- ShipmentRepository: anchors, revisions, and which revision is current.
use business_execution_ledge.Base.{
  ℕ, zero, suc, Bool, true, false, ◌&&◌, not, Option, none, some, List, [], ◌∷◌, ◌++◌, map, ◌==◌,
  present, eq_option, if◌then◌else◌,
}
use business_execution_ledge.Base.Lists.{length, filter, find, count}
use business_execution_ledge.Facts.Rows.{
  Revision, is_initial, Anchor, Store, Detail, Result, ok, err, value_error,
}

abbrev pub is_of : ℕ → Revision → Bool
is_of a r = r.anchor_id == a

-- `superseded_by_revision_id IS NULL`.
abbrev pub is_current : Revision → Bool
is_current r = not (present r.superseded_by_revision_id)

abbrev pub revisions_of : ℕ → List Revision → List Revision
revisions_of a rows = filter (is_of a) rows

unfoldable pub get_current_revision : ℕ → List Revision → Option Revision
get_current_revision a rows = find (λ r. is_of a r && is_current r) rows

unfoldable pub get_initial_revision : ℕ → List Revision → Option Revision
get_initial_revision a rows = find (λ r. is_of a r && is_initial r.revision_type) rows

abbrev pub same_id : Option ℕ → Option ℕ → Bool
same_id = eq_option (λ i j. i == j)

unfoldable pub find_predecessor : ℕ → List Revision → Option Revision
find_predecessor i rows = find (λ r. same_id r.superseded_by_revision_id (some i)) rows

unfoldable pub find_revision_by_fragment : ℕ → ℕ → List Revision → Option Revision
find_revision_by_fragment a f rows =
    find (λ r. is_of a r && same_id r.source_fragment_id (some f)) rows

-- The walk of `list_revisions` along the chain. The loop has no bound; `n` is one, and None is what
-- the walk is without it, or a KeyError.
unfoldable pub walk : ℕ → List Revision → Revision → Option (List Revision)
walk zero own r = none
walk (suc n) own r = elim r.superseded_by_revision_id [
  | none ↦ some (r ∷ [])
  | some j ↦ elim (find (λ (x : Revision). x.id == j) own) [
    | none ↦ none
    | some next ↦ elim (walk n own next) [ none ↦ none | some rest ↦ some (r ∷ rest) ]
  ]
]

unfoldable pub list_revisions : ℕ → List Revision → Option (List Revision)
list_revisions a rows = elim (revisions_of a rows) [
  | [] ↦ some []
  | r ∷ rs ↦ elim (find (λ (x : Revision). is_initial x.revision_type) (r ∷ rs)) [
    | none ↦ none
    | some first ↦ walk (length (r ∷ rs)) (r ∷ rs) first
  ]
]

abbrev pub is_startable : Revision → Bool
is_startable r = present r.source_fragment_id && (is_initial r.revision_type && is_current r)

abbrev pub create_initial_revision : Revision → List Revision → Result Unit × List Revision
create_initial_revision r rows =
    if is_startable r then (ok tt, rows ++ r ∷ []) else (err value_error, rows)

-- The rows that the conditional UPDATE changes, and what it does to a row.
abbrev pub is_target : ℕ → ℕ → Revision → Bool
is_target based a r = r.id == based && (is_of a r && is_current r)

abbrev pub retire : ℕ → ℕ → ℕ → Revision → Revision
retire based a new r =
    if is_target based a r then record r { superseded_by_revision_id = some new } else r

abbrev pub is_appendable : Revision → Bool
is_appendable r = present r.source_fragment_id && (is_current r && not (is_initial r.revision_type))

unfoldable pub append_revision_against_current :
    Revision → ℕ → List Revision → Result Bool × List Revision
append_revision_against_current r based rows =
    if is_appendable r
    then (let rows' = map (retire based r.anchor_id r.id) rows in
        if count (is_target based r.anchor_id) rows == 1
        then (ok true, rows' ++ r ∷ [])
        else (ok false, rows'))
    else (err value_error, rows)

module _ {I : Type 0} where
  abbrev pub get_anchor : ℕ → Store I → Option (Anchor I)
  get_anchor a s = find (λ (x : Anchor I). x.id == a) s.anchors

  -- The anchor joined with its current revision.
  unfoldable pub get : ℕ → Store I → Option (Anchor I × Revision)
  get a s = elim (get_anchor a s) [
    | none ↦ none
    | some x ↦ elim (get_current_revision a s.revisions) [ none ↦ none | some r ↦ some (x, r) ]
  ]

  abbrev pub create_anchor : Anchor I → Store I → Store I
  create_anchor x s = record s { anchors = s.anchors ++ x ∷ [] }

  abbrev pub add_task : Detail → ℕ → Store I → Store I
  add_task d now s = record s {
    tasks = s.tasks ++ record { detail = d; is_open = true; created_at = now } ∷ [];
  }
