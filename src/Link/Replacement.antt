-- ===== src/Link/Replacement.antt =====
-- What a CORRECT with a replacement makes current, for a replacement under another business key and
-- for one under the target's own.
use business_execution_ledge.Base.{
  ℕ, ◌≤◌, ◌<◌, ◌≡◌, ◌≢◌, refl, Bool, true, false, ◌&&◌, Option, none, some, List, [], ◌∷◌, ◌++◌,
  arith, ◌==◌, Option-cases, inl, inr,
}
use business_execution_ledge.Base.Lists.{
  any, count, find, find-append, any-append, find-none_of_count, find-none_of_any,
  any-false_of_find,
}
use business_execution_ledge.Link.Rows.{ConfirmationType, Link, Correction, Store, ok}
use business_execution_ledge.Link.Repository.{
  get, has_key, current_of, superseding, get_current_link, is_current, insert_episode_if_no_current,
  add_correction_if_uncorrected, get_correction_for_superseded,
}
use business_execution_ledge.Link.Commands.{CorrectionResult}
use business_execution_ledge.Link.Corrections.{
  correct_procurement_sales_link, correct_target, write_correction, resolve_replacement,
  replacement_key, again_corrected, correction_row, replacement_episode,
}
use business_execution_ledge.Link.OneCurrent.{IsSound}
use business_execution_ledge.Link.Current.{IsFresh, find_last}
use business_execution_ledge.Link.Outcomes.{Result-cases}

fewer_current :
    (cs : List Correction) (c : Correction) (p q : ℕ) (l : Link) (ls : List Link)
    → c.superseded_link_id ≡ l.id
    → count (current_of (cs ++ c ∷ []) p q) ls ≤ count (current_of cs p q) ls
fewer_current cs c p q l [] e = omega arith
fewer_current cs c p q l (m ∷ ls) e =
    ground (arith, any-append (superseding m.id) cs (c ∷ []), fewer_current cs c p q l ls e)

-- Retiring the current episode of a key takes one from its count.
one_fewer_current :
    (cs : List Correction) (c : Correction) (p q : ℕ) (l : Link) (ls : List Link)
    → c.superseded_link_id ≡ l.id
    → find (current_of cs p q) ls ≡ some l
    → count (current_of (cs ++ c ∷ []) p q) ls < count (current_of cs p q) ls
one_fewer_current cs c p q l [] e h = cc
one_fewer_current cs c p q l (m ∷ ls) e h = ground (
  arith,
  any-append (superseding m.id) cs (c ∷ []),
  fewer_current cs c p q l ls e,
  one_fewer_current cs c p q l ls e,
)

none_left :
    (s : Store) (c : Correction) (p q : ℕ) (l : Link)
    → IsSound s
    → c.superseded_link_id ≡ l.id
    → get_current_link s p q ≡ some l
    → find (current_of (s.corrections ++ c ∷ []) p q) s.links ≡ none
unfolding get_current_link
none_left s c p q l sound e h =
    find-none_of_count (current_of (s.corrections ++ c ∷ []) p q) s.links
      (omega (arith, one_fewer_current s.corrections c p q l s.links e h, sound.one_current p q))

-- A serialized CORRECT that returns, of the current episode of a key and with that same key as the
-- replacement, in a store with one current episode at most for a key, names the target as its own
-- replacement, and no episode of the key is current afterwards.
pub correct_own_key_loses_relationship :
    (link_id correction_id f : ℕ) (t : ConfirmationType) (now p q : ℕ) (l : Link) (s : Store)
    (r : CorrectionResult)
    → IsSound s
    → get_current_link s p q ≡ some l
    → is_current s l.id ≡ true
    → (correct_procurement_sales_link
        (λ u. u)
        (λ u. u)
        link_id
        correction_id
        l.id
        f
        t
        now
        (some p)
        (some q)
        s).0
      ≡ ok r
    → (r.replacement_link ≡ some l)
      × (get_current_link
            (correct_procurement_sales_link
              (λ u. u)
              (λ u. u)
              link_id
              correction_id
              l.id
              f
              t
              now
              (some p)
              (some q)
              s).1
            p
            q
          ≡ none)
unfolding correct_procurement_sales_link correct_target write_correction resolve_replacement
    replacement_key add_correction_if_uncorrected get_correction_for_superseded is_current
correct_own_key_loses_relationship link_id correction_id f t now p q l s r sound cur current h =
    let gone =
      none_left s (correction_row correction_id l.id (some l) f t now) p q l sound refl cur in
    unfold get_current_link in
    ground (
      arith,
      h,
      cur,
      current,
      gone,
      find-none_of_any (superseding l.id) s.corrections,
      find-append (superseding l.id) s.corrections
          (correction_row correction_id l.id (some l) f t now ∷ []),
    )

-- No row of the key has the id `i`.
abbrev pub other_key : ℕ → ℕ → ℕ → List Link → Bool
other_key i p q ls = any (λ (m : Link). m.id == i && has_key p q m) ls

-- A correction of an episode of another key leaves the current episode of this one.
find_unaffected :
    (cs : List Correction) (c : Correction) (i p q : ℕ) (ls : List Link)
    → c.superseded_link_id ≡ i
    → other_key i p q ls ≡ false
    → find (current_of (cs ++ c ∷ []) p q) ls ≡ find (current_of cs p q) ls
find_unaffected cs c i p q [] e h = refl
find_unaffected cs c i p q (m ∷ ls) e h =
    ground (arith, any-append (superseding m.id) cs (c ∷ []), find_unaffected cs c i p q ls e)

-- The replacement that is resolved is the current episode of its key, in a store whose corrections
-- are those from before.
resolved_current :
    (link_id f : ℕ) (t : ConfirmationType) (now i p q : ℕ) (s : Store) (m : Option Link)
    → IsFresh link_id s
    → link_id ≢ i
    → other_key i p q s.links ≡ false
    → (resolve_replacement (λ u. u) link_id f t now (some (p, q)) s).0 ≡ ok m
    → let u = (resolve_replacement (λ u. u) link_id f t now (some (p, q)) s).1 in
      (get_current_link u p q ≡ m)
      × (m ≢ none)
      × (u.corrections ≡ s.corrections)
      × (other_key i p q u.links ≡ false)
unfolding resolve_replacement insert_episode_if_no_current get_current_link get
resolved_current link_id f t now i p q s m fresh ne free h =
    elim (Option-cases (find (current_of s.corrections p q) s.links)) [
      | inr (l, e) ↦ ground (arith, e, h, free)
      | inl e ↦ ground (
        arith,
        e,
        h,
        any-false_of_find (current_of s.corrections p q) s.links e,
        find_last (λ (n : Link). n.id == link_id) s.links (replacement_episode link_id p q f t now)
            fresh.no_link,
        find_last (current_of s.corrections p q) s.links (replacement_episode link_id p q f t now),
        any-append (λ (n : Link). n.id == i && has_key p q n) s.links
            (replacement_episode link_id p q f t now ∷ []),
        fresh.no_correction,
      )
    ]

write_replacement :
    (link_id correction_id i f : ℕ) (t : ConfirmationType) (now p q : ℕ) (s : Store)
    (r : CorrectionResult)
    → IsFresh link_id s
    → link_id ≢ i
    → other_key i p q s.links ≡ false
    → (write_correction (λ u. u) (λ u. u) link_id correction_id i f t now (some (p, q)) s).0 ≡ ok r
    → (r.replacement_link ≢ none)
      × (get_current_link
            (write_correction (λ u. u) (λ u. u) link_id correction_id i f t now (some (p, q)) s).1
            p
            q
          ≡ r.replacement_link)
unfolding write_correction add_correction_if_uncorrected get_current_link
write_replacement link_id correction_id i f t now p q s r fresh ne free h =
    let m = resolve_replacement (λ u. u) link_id f t now (some (p, q)) s in
    elim (Result-cases m.0) [
      | inr (e, failed) ↦ ground (arith, failed, h)
      | inl (replacement, e) ↦ ground (
        arith,
        e,
        h,
        resolved_current link_id f t now i p q s replacement fresh ne free e,
        find_unaffected m.1.corrections (correction_row correction_id i replacement f t now) i p q
            m.1.links refl,
      )
    ]

-- A serialized CORRECT that writes a correction, with a replacement whose business key the target
-- does not have and with an id that no row has, leaves a replacement, and it is the current episode
-- of that key, whether it was there before or is new.
pub correct_replacement_current :
    (link_id correction_id i f : ℕ) (t : ConfirmationType) (now p q : ℕ) (s : Store)
    (r : CorrectionResult)
    → IsFresh link_id s
    → link_id ≢ i
    → other_key i p q s.links ≡ false
    → (correct_procurement_sales_link
        (λ u. u)
        (λ u. u)
        link_id
        correction_id
        i
        f
        t
        now
        (some p)
        (some q)
        s).0
      ≡ ok r
    → r.created ≡ true
    → (r.replacement_link ≢ none)
      × (get_current_link
            (correct_procurement_sales_link
              (λ u. u)
              (λ u. u)
              link_id
              correction_id
              i
              f
              t
              now
              (some p)
              (some q)
              s).1
            p
            q
          ≡ r.replacement_link)
unfolding correct_procurement_sales_link correct_target replacement_key again_corrected
correct_replacement_current link_id correction_id i f t now p q s r fresh ne free h made =
    elim (Option-cases (get_correction_for_superseded s i)) [
      | inr (c, e) ↦ ground (arith, e, h, made)
      | inl e ↦
          ground
            (arith, e, h, write_replacement link_id correction_id i f t now p q s r fresh ne free)
    ]
