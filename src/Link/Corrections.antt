-- ===== src/Link/Corrections.antt =====
-- CORRECT / INVALIDATE and REESTABLISH of application/procurement_sales_link.py, on the same terms
-- as Link/Commands. CORRECT has two moments at which another session may commit: before the
-- replacement is inserted, and before the correction is.
use business_execution_ledge.Base.{
  ℕ, Bool, true, false, ◌&&◌, ◌||◌, Option, none, some, List, [], ◌∷◌, ◌==◌, if◌then◌else◌,
}
use business_execution_ledge.Base.Lists.{any}
use business_execution_ledge.Link.Rows.{
  ConfirmationType, Link, Correction, Store, Reason, Conflict, fact_error, fact_conflict,
  assertion_failed, Result, ok, err, Action, ◌>>=◌, ◌>>◌, pure,
}
use business_execution_ledge.Link.Repository.{
  get, is_current, get_current_link, list_episodes, insert_episode_if_no_current,
  get_correction_for_superseded, add_correction_if_uncorrected,
}
use business_execution_ledge.Link.Commands.{
  LinkResult, CorrectionResult, is_human, require, validate_endpoints, require_procurement_contract,
  require_sales_contract, require_fragment, flag_correction_conflict, created_episode,
}

-- Both replacement ids, neither, or a refusal.
unfoldable pub replacement_key : Option ℕ → Option ℕ → Result (Option (ℕ × ℕ))
replacement_key none none = ok none
replacement_key (some p) (some q) = ok (some (p, q))
replacement_key _ _ = err (fact_error Reason.half_replacement)

unfoldable pub same_replacement_business_key : Store → Correction → Option (ℕ × ℕ) → Bool
same_replacement_business_key s c key = elim c.replacement_link_id [
  | none ↦ elim key [ none ↦ true | some _ ↦ false ]
  | some r ↦ elim key [
    | none ↦ false
    | some (p, q) ↦ elim (get s r) [
      | none ↦ false
      | some l ↦ l.procurement_contract_id == p && l.sales_contract_id == q
    ]
  ]
]

abbrev pub replacement_episode : ℕ → ℕ → ℕ → ℕ → ConfirmationType → ℕ → Link
replacement_episode link_id p q f t now = record {
  id = link_id;
  procurement_contract_id = p;
  sales_contract_id = q;
  source_fragment_id = f;
  confirmation_type = t;
  created_at = now;
}

abbrev id_of : Option Link → Option ℕ
id_of none = none
id_of (some l) = some l.id

abbrev pub correction_row : ℕ → ℕ → Option Link → ℕ → ConfirmationType → ℕ → Correction
correction_row correction_id superseded replacement f t now = record {
  id = correction_id;
  superseded_link_id = superseded;
  replacement_link_id = id_of replacement;
  source_fragment_id = f;
  confirmation_type = t;
  created_at = now;
}

-- The replacement that a correction will name, and the store with it: the current episode of its
-- key, else a new one, else the episode that a rival has just put there.
unfoldable pub resolve_replacement :
    (Store → Store) → ℕ → ℕ → ConfirmationType → ℕ → Option (ℕ × ℕ) → Action (Option Link)
resolve_replacement rival link_id f t now none s = (ok none, rival s)
resolve_replacement rival link_id f t now (some (p, q)) s = elim (get_current_link s p q) [
  | some l ↦ (ok (some l), rival s)
  | none ↦
      let (inserted, s') =
        insert_episode_if_no_current (replacement_episode link_id p q f t now) (rival s) in
      elim (if inserted then get s' link_id else get_current_link s' p q) [
        | none ↦ (err assertion_failed, s')
        | some l ↦ (ok (some l), s')
      ]
]

-- The body of the SAVEPOINT. On a lost race the store is what the other sessions committed, without
-- the replacement that this command inserted.
unfoldable pub write_correction :
    (Store → Store)
    → (Store → Store)
    → ℕ
    → ℕ
    → ℕ
    → ℕ
    → ConfirmationType
    → ℕ
    → Option (ℕ × ℕ)
    → Action CorrectionResult
write_correction rival rival' link_id correction_id superseded f t now key s =
    let (resolved, s') = resolve_replacement rival link_id f t now key s in
    elim resolved [
      | err e ↦ (err e, s')
      | ok replacement ↦
          let (written, s'') =
            add_correction_if_uncorrected
              (correction_row correction_id superseded replacement f t now) (rival' s') in
          elim written [
            | false ↦ (
              err (fact_conflict Conflict.corrected_concurrently),
              flag_correction_conflict superseded f now (rival' (rival s)),
            )
            | true ↦ elim (get_correction_for_superseded s'' superseded) [
              | none ↦ (err assertion_failed, s'')
              | some c ↦ (
                ok (record {
                  correction = c;
                  replacement_link = replacement;
                  created = true;
                  replay = false;
                }),
                s'',
              )
            ]
          ]
    ]

abbrev get_if_any : Store → Option ℕ → Option Link
get_if_any s none = none
get_if_any s (some i) = get s i

-- A second correction of the same episode: the same one again, or a conflict.
unfoldable pub again_corrected : ℕ → ℕ → ℕ → Option (ℕ × ℕ) → Correction → Action CorrectionResult
again_corrected superseded f now key c s =
    if c.source_fragment_id == f && same_replacement_business_key s c key
    then (
      ok (record {
        correction = c;
        replacement_link = get_if_any s c.replacement_link_id;
        created = false;
        replay = true;
      }),
      s,
    )
    else (
      err (fact_conflict Conflict.already_corrected),
      flag_correction_conflict superseded f now s,
    )

abbrev pub require_replacement : Option (ℕ × ℕ) → Action Unit
require_replacement none = pure tt
require_replacement (some (p, q)) = do require_procurement_contract p; require_sales_contract q

-- CORRECT on an existing episode.
unfoldable pub correct_target :
    (Store → Store)
    → (Store → Store)
    → ℕ
    → ℕ
    → ℕ
    → ℕ
    → ConfirmationType
    → ℕ
    → Option (ℕ × ℕ)
    → Action CorrectionResult
correct_target rival rival' link_id correction_id superseded f t now key s =
    elim (get_correction_for_superseded s superseded) [
      | some c ↦ again_corrected superseded f now key c s
      | none ↦
          if is_current s superseded
          then (require_replacement key
                >> write_correction rival rival' link_id correction_id superseded f t now key)
              s
          else (err (fact_conflict Conflict.already_retired), s)
    ]

abbrev lift : {A : Type 0} → Result A → Action A
lift r s = (r, s)

abbrev pub require_link : ℕ → Action Unit
require_link i s = elim (get s i) [
  | none ↦ (err (fact_error Reason.link_not_found), s)
  | some _ ↦ (ok tt, s)
]

unfoldable pub correct_procurement_sales_link :
    (Store → Store)
    → (Store → Store)
    → ℕ
    → ℕ
    → ℕ
    → ℕ
    → ConfirmationType
    → ℕ
    → Option ℕ
    → Option ℕ
    → Action CorrectionResult
correct_procurement_sales_link rival rival' link_id correction_id superseded f t now p? q? = do
  require (is_human t) Reason.needs_human_confirmation
  require_fragment f
  key ← lift (replacement_key p? q?)
  require_link superseded
  correct_target rival rival' link_id correction_id superseded f t now key

-- `source_fragment_id in historical_fragment_ids`.
unfoldable pub is_historical : Store → ℕ → List Link → Bool
is_historical s f episodes =
    any
      (λ (l : Link).
        l.source_fragment_id == f
        || any (λ (c : Correction). c.source_fragment_id == f)
            (elim (get_correction_for_superseded s l.id) [ none ↦ [] | some c ↦ c ∷ [] ]))
      episodes

unfoldable pub insert_or_conflict : (Store → Store) → Link → ℕ → Action LinkResult
insert_or_conflict rival link now s =
    let (inserted, s') = insert_episode_if_no_current link (rival s) in
    elim inserted [
      | true ↦ created_episode link now s'
      | false ↦ (err (fact_conflict Conflict.gained_current), s')
    ]

-- REESTABLISH on a key whose endpoints and evidence exist.
unfoldable pub reestablish_key : (Store → Store) → Link → ℕ → Action LinkResult
reestablish_key rival link now s =
    elim (list_episodes s link.procurement_contract_id link.sales_contract_id) [
      | [] ↦ (err (fact_error Reason.no_history), s)
      | e ∷ es ↦ elim (get_current_link s link.procurement_contract_id link.sales_contract_id) [
        | some _ ↦ (err (fact_error Reason.has_current), s)
        | none ↦
            if is_historical s link.source_fragment_id (e ∷ es)
            then (err (fact_error Reason.historical_evidence), s)
            else insert_or_conflict rival link now s
      ]
    ]

unfoldable pub reestablish_procurement_sales_link :
    (Store → Store) → ℕ → Option ℕ → Option ℕ → ℕ → ConfirmationType → ℕ → Action LinkResult
reestablish_procurement_sales_link rival link_id p? q? f t now = do
  require (is_human t) Reason.needs_human_confirmation
  (p, q) ← validate_endpoints p? q?
  require_procurement_contract p
  require_sales_contract q
  require_fragment f
  reestablish_key rival
      (record {
        id = link_id;
        procurement_contract_id = p;
        sales_contract_id = q;
        source_fragment_id = f;
        confirmation_type = t;
        created_at = now;
      })
      now
