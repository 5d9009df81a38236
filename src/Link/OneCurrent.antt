-- ===== src/Link/OneCurrent.antt =====
-- The invariant of the bridge: a business key has one current episode at most, and an episode one
-- correction at most. Each write and each command keeps it, whatever other sessions commit.
use business_execution_ledge.Base.{
  ℕ, ◌≤◌, ◌≡◌, true, false, List, [], ◌∷◌, ◌++◌, arith, Bool-cases, inl, inr,
}
use mathlib.Core.Path.{subst}
use business_execution_ledge.Base.Lists.{
  any, count, count-append, count_mono, any-count, any-append,
}
use business_execution_ledge.Link.Rows.{Link, Correction, Store}
use business_execution_ledge.Link.Repository.{
  superseding, is_corrected, current_of, insert_episode_if_no_current,
  add_correction_if_uncorrected,
}

pub record IsSound (s : Store) : Type 0 where
  pub one_current : (p q : ℕ) → count (current_of s.corrections p q) s.links ≤ 1
  pub one_correction : (i : ℕ) → count (superseding i) s.corrections ≤ 1

-- The rows of the bridge are all that the invariant reads.
pub IsSound-same :
    (s t : Store) → s.links ≡ t.links → s.corrections ≡ t.corrections → IsSound s → IsSound t
IsSound-same s t e e' h = record {
  one_current = λ p q. rw (← e, ← e') (h.one_current p q);
  one_correction = λ i. rw (← e') (h.one_correction i);
}

no_current_of :
    (cs : List Correction) (link : Link) (p q : ℕ) (ls : List Link)
    → current_of cs p q link ≡ true
    → any (current_of cs link.procurement_contract_id link.sales_contract_id) ls ≡ false
    → any (current_of cs p q) ls ≡ false
no_current_of cs link p q [] c h = h
no_current_of cs link p q (l ∷ ls) c h = ground (arith, no_current_of cs link p q ls c)

count_new :
    (cs : List Correction) (link : Link) (p q : ℕ) (ls : List Link)
    → any (current_of cs link.procurement_contract_id link.sales_contract_id) ls ≡ false
    → count (current_of cs p q) ls ≤ 1
    → count (current_of cs p q) (ls ++ link ∷ []) ≤ 1
count_new cs link p q ls free h =
    rw (count-append (current_of cs p q) ls (link ∷ []))
      (ground (arith, no_current_of cs link p q ls, any-count (current_of cs p q) ls))

pub insert_episode_if_no_current-IsSound :
    (link : Link) (s : Store) → IsSound s → IsSound (insert_episode_if_no_current link s).1
unfolding insert_episode_if_no_current
insert_episode_if_no_current-IsSound link s h =
    elim (Bool-cases (
      any (current_of s.corrections link.procurement_contract_id link.sales_contract_id) s.links)) [
        | inl taken ↦ rw taken h
        | inr free ↦ rw free (record {
          one_current = λ p q. count_new s.corrections link p q s.links free (h.one_current p q);
          one_correction = h.one_correction;
        })
      ]

-- A further correction only takes currency away.
still_current :
    (cs : List Correction) (c : Correction) (p q : ℕ) (l : Link)
    → current_of (cs ++ c ∷ []) p q l ≡ true
    → current_of cs p q l ≡ true
still_current cs c p q l h = ground (arith, any-append (superseding l.id) cs (c ∷ []))

count_of_same :
    (cs : List Correction) (i j : ℕ)
    → is_corrected cs j ≡ false
    → j ≡ i
    → count (superseding i) cs ≡ 0
count_of_same cs i j free e =
    any-count (superseding i) cs (subst (λ k. is_corrected cs k ≡ false) e free)

count_corrected :
    (cs : List Correction) (c : Correction) (i : ℕ)
    → is_corrected cs c.superseded_link_id ≡ false
    → count (superseding i) cs ≤ 1
    → count (superseding i) (cs ++ c ∷ []) ≤ 1
count_corrected cs c i free h =
    rw (count-append (superseding i) cs (c ∷ []))
      (ground (arith, count_of_same cs i c.superseded_link_id free))

pub add_correction_if_uncorrected-IsSound :
    (c : Correction) (s : Store) → IsSound s → IsSound (add_correction_if_uncorrected c s).1
unfolding add_correction_if_uncorrected
add_correction_if_uncorrected-IsSound c s h =
    elim (Bool-cases (is_corrected s.corrections c.superseded_link_id)) [
      | inl taken ↦ rw taken h
      | inr free ↦ rw free (record {
        one_current = λ p q. omega (
          arith,
          count_mono (current_of s.corrections p q) (current_of (s.corrections ++ c ∷ []) p q)
              s.links (still_current s.corrections c p q),
          h.one_current p q,
        );
        one_correction = λ i. count_corrected s.corrections c i free (h.one_correction i);
      })
    ]
