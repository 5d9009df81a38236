-- ===== src/Link/Outcomes.antt =====
-- What the commands of the bridge return, and what is current afterwards.
use business_execution_ledge.Base.{
  ℕ, ◌≡◌, ◌≢◌, refl, true, false, Option, none, some, List, [], ◌∷◌, ◌++◌, arith, ==_self,
  Option-cases, ◌⊎◌, inl, inr,
}
use business_execution_ledge.Base.Lists.{any-append, find, find-append}
use business_execution_ledge.Link.Rows.{
  ConfirmationType, Correction, Store, Result, ok, err, Error, human_confirmed,
}
use business_execution_ledge.Link.Repository.{
  is_current, is_corrected, superseding, list_episodes, add_correction_if_uncorrected,
  get_correction_for_superseded,
}
use business_execution_ledge.Link.Commands.{
  LinkResult, CorrectionResult, add_to_key, add_procurement_sales_link, validate_endpoints,
}
use business_execution_ledge.Link.Corrections.{
  correct_procurement_sales_link, correct_target, write_correction, resolve_replacement,
  replacement_key, reestablish_procurement_sales_link, reestablish_key, is_historical,
  correction_row, again_corrected,
}

-- On a key that has a history ADD writes nothing, whatever evidence it brings.
pub add_history_unchanged :
    (rival : Store → Store) (link_id p q f : ℕ) (t : ConfirmationType) (now : ℕ) (s : Store)
    → list_episodes s p q ≢ []
    → (add_procurement_sales_link rival link_id (some p) (some q) f t now s).1 ≡ s
unfolding add_procurement_sales_link add_to_key validate_endpoints
add_history_unchanged rival link_id p q f t now s h = ground arith

-- Evidence that has asserted or retired an episode of a key never re-establishes it: the command
-- returns no result, and it writes nothing.
pub reestablish_needs_new_evidence :
    (rival : Store → Store) (link_id p q f : ℕ) (t : ConfirmationType) (now : ℕ) (s : Store)
    (r : LinkResult)
    → is_historical s f (list_episodes s p q) ≡ true
    → ((reestablish_procurement_sales_link rival link_id (some p) (some q) f t now s).1 ≡ s)
      × ((reestablish_procurement_sales_link rival link_id (some p) (some q) f t now s).0 ≢ ok r)
unfolding reestablish_procurement_sales_link reestablish_key validate_endpoints
reestablish_needs_new_evidence rival link_id p q f t now s r h = (ground arith, ground arith)

uncorrected_now :
    (cs : List Correction) (i : ℕ) (c : Correction)
    → c.superseded_link_id ≡ i
    → is_corrected (cs ++ c ∷ []) i ≡ true
uncorrected_now cs i c e = rw (any-append (superseding i) cs (c ∷ [])) (ground (arith, e))

pub Result-cases :
    {A : Type 0} (r : Result A) → ((a : A) × (r ≡ ok a)) ⊎ ((e : Error) × (r ≡ err e))
Result-cases (ok a) = inl (a, refl)
Result-cases (err e) = inr (e, refl)

-- A correction that was written is the one that is found, and its target is retired.
corrected_after :
    (c : Correction) (t : Store)
    → (add_correction_if_uncorrected c t).0 ≡ true
    → (get_correction_for_superseded (add_correction_if_uncorrected c t).1 c.superseded_link_id
        ≡ some c)
      × (is_current (add_correction_if_uncorrected c t).1 c.superseded_link_id ≡ false)
unfolding add_correction_if_uncorrected get_correction_for_superseded is_current
corrected_after c t h = ground (
  arith,
  find-append (superseding c.superseded_link_id) t.corrections (c ∷ []),
  uncorrected_now t.corrections c.superseded_link_id c,
  ==_self c.superseded_link_id,
)

write_retires :
    (rival rival' : Store → Store) (link_id correction_id i f : ℕ) (t : ConfirmationType) (now : ℕ)
    (key : Option (ℕ × ℕ)) (s : Store) (r : CorrectionResult)
    → (write_correction rival rival' link_id correction_id i f t now key s).0 ≡ ok r
    → (is_current (write_correction rival rival' link_id correction_id i f t now key s).1 i ≡ false)
      × (r.correction.superseded_link_id ≡ i)
      × (r.created ≡ true)
      × (resolve_replacement rival link_id f t now key s).0 ≡ ok r.replacement_link
unfolding write_correction
write_retires rival rival' link_id correction_id i f t now key s r h =
    let m = resolve_replacement rival link_id f t now key s in
    elim (Result-cases m.0) [
      | inl (replacement, e) ↦ ground (
        arith,
        e,
        h,
        corrected_after (correction_row correction_id i replacement f t now) (rival' m.1),
      )
      | inr (e, failed) ↦ ground (arith, failed, h)
    ]

found_corrects :
    (cs : List Correction) (i : ℕ) (c : Correction)
    → find (superseding i) cs ≡ some c
    → (is_corrected cs i ≡ true) × (c.superseded_link_id ≡ i)
found_corrects [] i c h = cc
found_corrects (x ∷ cs) i c h = ground (arith, found_corrects cs i c)

again_retires :
    (i f now : ℕ) (key : Option (ℕ × ℕ)) (c : Correction) (s : Store) (r : CorrectionResult)
    → get_correction_for_superseded s i ≡ some c
    → (again_corrected i f now key c s).0 ≡ ok r
    → (is_current (again_corrected i f now key c s).1 i ≡ false)
      × (r.correction.superseded_link_id ≡ i)
unfolding again_corrected get_correction_for_superseded is_current
again_retires i f now key c s r e h = ground (arith, e, h, found_corrects s.corrections i c)

target_retires :
    (rival rival' : Store → Store) (link_id correction_id i f : ℕ) (t : ConfirmationType) (now : ℕ)
    (key : Option (ℕ × ℕ)) (s : Store) (r : CorrectionResult)
    → (correct_target rival rival' link_id correction_id i f t now key s).0 ≡ ok r
    → (is_current (correct_target rival rival' link_id correction_id i f t now key s).1 i ≡ false)
      × (r.correction.superseded_link_id ≡ i)
unfolding correct_target
target_retires rival rival' link_id correction_id i f t now none s r h =
    elim (Option-cases (get_correction_for_superseded s i)) [
      | inl e ↦
          ground (arith, e, h, write_retires rival rival' link_id correction_id i f t now none s r)
      | inr (c, e) ↦ ground (arith, e, h, again_retires i f now none c s r)
    ]
target_retires rival rival' link_id correction_id i f t now (some (p, q)) s r h =
    elim (Option-cases (get_correction_for_superseded s i)) [
      | inl e ↦ ground (
        arith,
        e,
        h,
        write_retires rival rival' link_id correction_id i f t now (some (p, q)) s r,
      )
      | inr (c, e) ↦ ground (arith, e, h, again_retires i f now (some (p, q)) c s r)
    ]

-- Whenever CORRECT returns, as a new correction or as a replay, a human has confirmed it and its
-- target is retired in the store that it leaves.
pub correct_retires :
    (rival rival' : Store → Store) (link_id correction_id i f : ℕ) (t : ConfirmationType) (now : ℕ)
    (p q : Option ℕ) (s : Store) (r : CorrectionResult)
    → (correct_procurement_sales_link rival rival' link_id correction_id i f t now p q s).0 ≡ ok r
    → (t ≡ human_confirmed)
      × (r.correction.superseded_link_id ≡ i)
      × (is_current
            (correct_procurement_sales_link rival rival' link_id correction_id i f t now p q s).1
            i
          ≡ false)
unfolding correct_procurement_sales_link
correct_retires rival rival' link_id correction_id i f t now p q s r h =
    elim (Result-cases (replacement_key p q)) [
      | inl (key, e) ↦
          ground (arith, e, h, target_retires rival rival' link_id correction_id i f t now key s r)
      | inr (e, failed) ↦ ground (arith, failed, h)
    ]
