-- ===== src/Link/Run.antt =====
-- The commands as one type, and what every one of them keeps, whatever it returns or raises and
-- whatever other sessions commit while it runs.
use mathlib.Core.List.{append_assoc, append-nil}
use business_execution_ledge.Base.{
  ℕ, ◌≡◌, refl, sym, ◌∙◌, ap, Option, List, [], ◌∷◌, ◌++◌, Bool-cases, inl, inr,
}
use business_execution_ledge.Base.Lists.{any}
use business_execution_ledge.Link.Rows.{ConfirmationType, Link, Correction, Store}
use business_execution_ledge.Link.Repository.{
  add_task, insert_episode_if_no_current, add_correction_if_uncorrected, current_of, is_corrected,
}
use business_execution_ledge.Link.Commands.{
  add_procurement_sales_link, record_unconfirmed_procurement_sales_link,
}
use business_execution_ledge.Link.Corrections.{
  correct_procurement_sales_link, reestablish_procurement_sales_link,
}
use business_execution_ledge.Link.OneCurrent.{
  IsSound, IsSound-same, insert_episode_if_no_current-IsSound,
  add_correction_if_uncorrected-IsSound,
}
use business_execution_ledge.Link.Keeps.{Invariant, Safe}
use business_execution_ledge.Link.CommandKeeps.{
  add_procurement_sales_link-Keeps, record_unconfirmed-Keeps,
  reestablish_procurement_sales_link-Keeps, correct_procurement_sales_link-Keeps,
}

-- Row ids that uuid4 draws come first, then the arguments of the Python function.
pub data Command : Type 0 where
  add : ℕ → Option ℕ → Option ℕ → ℕ → ConfirmationType → ℕ → Command
  suggest : Option ℕ → Option ℕ → ℕ → ℕ → Command
  correct : ℕ → ℕ → ℕ → ℕ → ConfirmationType → ℕ → Option ℕ → Option ℕ → Command
  reestablish : ℕ → Option ℕ → Option ℕ → ℕ → ConfirmationType → ℕ → Command

-- The store that a command leaves.
unfoldable pub run : (Store → Store) → (Store → Store) → Command → Store → Store
run rival rival' (add l p q f t now) s = (add_procurement_sales_link rival l p q f t now s).1
run rival rival' (suggest p q f now) s = (record_unconfirmed_procurement_sales_link p q f now s).1
run rival rival' (correct l c i f t now p q) s =
    (correct_procurement_sales_link rival rival' l c i f t now p q s).1
run rival rival' (reestablish l p q f t now) s =
    (reestablish_procurement_sales_link rival l p q f t now s).1

module _ (P : Store → Type 0) (inv : Invariant P) (rival rival' : Store → Store)
    (safe : Safe P rival) (safe' : Safe P rival') where
  run_keeps : (c : Command) (s : Store) → P s → P (run rival rival' c s)
  unfolding run
  run_keeps (add l p q f t now) s h =
      (add_procurement_sales_link-Keeps P inv rival safe l p q f t now s h).holds
  run_keeps (suggest p q f now) s h = (record_unconfirmed-Keeps P inv p q f now s h).holds
  run_keeps (correct l c i f t now p q) s h =
      (correct_procurement_sales_link-Keeps P inv rival safe rival' safe' l c i f t now p q s
        h).holds
  run_keeps (reestablish l p q f t now) s h =
      (reestablish_procurement_sales_link-Keeps P inv rival safe l p q f t now s h).holds

IsSound-invariant : Invariant IsSound
IsSound-invariant = record {
  task = λ d now s. IsSound-same s (add_task d now s) refl refl;
  insert = insert_episode_if_no_current-IsSound;
  correct = add_correction_if_uncorrected-IsSound;
}

-- If a business key has one current episode at most and an episode one correction at most, that is
-- so after any command, provided that what other sessions commit meanwhile keeps it too.
pub run-IsSound :
    (rival rival' : Store → Store)
    → Safe IsSound rival
    → Safe IsSound rival'
    → (c : Command) (s : Store) → IsSound s
    → IsSound (run rival rival' c s)
run-IsSound rival rival' safe safe' = run_keeps IsSound IsSound-invariant rival rival' safe safe'

-- `t` has the rows of `s`, unchanged and in place, and perhaps more.
pub record Extends (s t : Store) : Type 0 where
  pub more_links : List Link
  pub links_kept : t.links ≡ s.links ++ more_links
  pub more_corrections : List Correction
  pub corrections_kept : t.corrections ≡ s.corrections ++ more_corrections

extend_links :
    (s t u : Store) (x : List Link)
    → Extends s t
    → u.links ≡ t.links ++ x
    → u.corrections ≡ t.corrections
    → Extends s u
extend_links s t u x h e e' = record {
  more_links = h.more_links ++ x;
  links_kept = e ∙ ap (λ l. l ++ x) h.links_kept ∙ append_assoc s.links h.more_links x;
  more_corrections = h.more_corrections;
  corrections_kept = e' ∙ h.corrections_kept;
}

extend_corrections :
    (s t u : Store) (x : List Correction)
    → Extends s t
    → u.links ≡ t.links
    → u.corrections ≡ t.corrections ++ x
    → Extends s u
extend_corrections s t u x h e e' = record {
  more_links = h.more_links;
  links_kept = e ∙ h.links_kept;
  more_corrections = h.more_corrections ++ x;
  corrections_kept =
      e' ∙ ap (λ l. l ++ x) h.corrections_kept ∙ append_assoc s.corrections h.more_corrections x;
}

insert-Extends :
    (s : Store) (l : Link) (t : Store)
    → Extends s t
    → Extends s (insert_episode_if_no_current l t).1
unfolding insert_episode_if_no_current
insert-Extends s l t h =
    elim (Bool-cases
      (any (current_of t.corrections l.procurement_contract_id l.sales_contract_id) t.links)) [
        | inl taken ↦ rw taken h
        | inr free ↦
            rw free (extend_links s t (record t { links = t.links ++ l ∷ [] }) (l ∷ []) h refl refl)
      ]

correct-Extends :
    (s : Store) (c : Correction) (t : Store)
    → Extends s t
    → Extends s (add_correction_if_uncorrected c t).1
unfolding add_correction_if_uncorrected
correct-Extends s c t h = elim (Bool-cases (is_corrected t.corrections c.superseded_link_id)) [
  | inl taken ↦ rw taken h
  | inr free ↦ rw free (
      extend_corrections s t (record t { corrections = t.corrections ++ c ∷ [] }) (c ∷ []) h refl
        refl)
]

Extends-invariant : (s : Store) → Invariant (Extends s)
Extends-invariant s = record {
  task = λ d now t h. extend_links s t (add_task d now t) [] h (sym (append-nil t.links)) refl;
  insert = insert-Extends s;
  correct = correct-Extends s;
}

Extends-refl : (s : Store) → Extends s s
Extends-refl s = record {
  more_links = [];
  links_kept = sym (append-nil s.links);
  more_corrections = [];
  corrections_kept = sym (append-nil s.corrections);
}

-- No command deletes, edits or reorders an episode or a correction: the rows from before are a
-- prefix of the rows after, provided that what other sessions commit meanwhile keeps them as well.
pub run-Extends :
    (rival rival' : Store → Store) (c : Command) (s : Store)
    → Safe (Extends s) rival
    → Safe (Extends s) rival'
    → Extends s (run rival rival' c s)
run-Extends rival rival' c s safe safe' =
    run_keeps (Extends s) (Extends-invariant s) rival rival' safe safe' c s (Extends-refl s)
