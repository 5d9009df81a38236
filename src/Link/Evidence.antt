-- ===== src/Link/Evidence.antt =====
-- The history of a business key: which evidence it has used up, and what it forbids from then on.
use business_execution_ledge.Base.{
  ℕ, ◌≤◌, ◌≡◌, ◌≢◌, ◌⊎◌, refl, Bool, true, false, ◌&&◌, ◌||◌, none, some, List, [], ◌∷◌, arith,
  ◌==◌, inl, inr, Option-cases,
}
use business_execution_ledge.Base.Lists.{any, filter, find, count, any-append}
use business_execution_ledge.Link.Rows.{ConfirmationType, Link, Correction, Store, Error, ok, err}
use business_execution_ledge.Link.Repository.{
  superseding, has_key, get_current_link, list_episodes, insert_ordered, order_by_created,
  get_correction_for_superseded,
}
use business_execution_ledge.Link.Commands.{
  LinkResult, already_there, add_to_key, add_procurement_sales_link, validate_endpoints,
}
use business_execution_ledge.Link.Corrections.{is_historical, reestablish_procurement_sales_link}
use business_execution_ledge.Link.OneCurrent.{IsSound}
use business_execution_ledge.Link.Outcomes.{
  add_history_unchanged, reestablish_needs_new_evidence, Result-cases,
}
use business_execution_ledge.Link.Run.{Extends}

any-insert_ordered :
    (p : Link → Bool) (l : Link) (ls : List Link) → any p (insert_ordered l ls) ≡ p l || any p ls
any-insert_ordered p l [] = refl
any-insert_ordered p l (m ∷ ls) = ground (arith, any-insert_ordered p l ls)

any-order_by_created : (p : Link → Bool) (ls : List Link) → any p (order_by_created ls) ≡ any p ls
any-order_by_created p [] = refl
any-order_by_created p (l ∷ ls) =
    ground (arith, any-insert_ordered p l (order_by_created ls), any-order_by_created p ls)

any-filter : (p k : Link → Bool) (ls : List Link) → any p (filter k ls) ≡ any (λ l. k l && p l) ls
any-filter p k [] = refl
any-filter p k (l ∷ ls) = ground (arith, any-filter p k ls)

any_mono :
    (p q : Link → Bool) (ls : List Link)
    → ((l : Link) → p l ≡ true → q l ≡ true)
    → any p ls ≡ true
    → any q ls ≡ true
any_mono p q [] h e = e
any_mono p q (l ∷ ls) h e = ground (arith, h l, any_mono p q ls h)

-- An episode of the key that `f` asserted, or that a correction with evidence `f` retired, by the
-- rows alone.
abbrev pub has_used : Store → ℕ → ℕ → ℕ → Bool
has_used s p q f =
    any
      (λ (l : Link).
        has_key p q l
        && (l.source_fragment_id == f
            || any (λ (c : Correction). superseding l.id c && c.source_fragment_id == f)
                s.corrections))
      s.links

none_retiring :
    (i f : ℕ) (cs : List Correction)
    → count (superseding i) cs ≡ 0
    → any (λ (c : Correction). superseding i c && c.source_fragment_id == f) cs ≡ false
none_retiring i f [] h = refl
none_retiring i f (c ∷ cs) h = ground (arith, none_retiring i f cs)

-- With one correction of an episode at most, the one with evidence `f` is the one that is found.
retiring_found :
    (i f : ℕ) (cs : List Correction)
    → count (superseding i) cs ≤ 1
    → any (λ (c : Correction). superseding i c && c.source_fragment_id == f) cs ≡ true
    → any
        (λ (c : Correction). c.source_fragment_id == f)
        (elim (find (superseding i) cs) [ none ↦ [] | some c ↦ c ∷ [] ])
      ≡ true
retiring_found i f [] h e = cc
retiring_found i f (c ∷ cs) h e = ground (arith, h, e, none_retiring i f cs, retiring_found i f cs)

-- What has been used is historical for the code, which looks the corrections up one by one.
has_used-is_historical :
    (s : Store) (p q f : ℕ)
    → IsSound s
    → has_used s p q f ≡ true
    → is_historical s f (list_episodes s p q) ≡ true
unfolding is_historical list_episodes get_correction_for_superseded
has_used-is_historical s p q f sound h =
    rw (any-order_by_created, any-filter)
      (any_mono _ _ s.links
        (λ l e. ground (arith, e, retiring_found l.id f s.corrections (sound.one_correction l.id)))
        h)

-- A fragment that asserted an episode of the key is historical there.
pub asserted-is_historical :
    (s : Store) (p q f : ℕ)
    → any (λ (m : Link). has_key p q m && m.source_fragment_id == f) s.links ≡ true
    → is_historical s f (list_episodes s p q) ≡ true
unfolding is_historical list_episodes
asserted-is_historical s p q f h =
    rw (any-order_by_created, any-filter) (any_mono _ _ s.links (λ l e. ground arith) h)

has_used-Extends :
    (s later : Store) (p q f : ℕ)
    → Extends s later
    → has_used s p q f ≡ true
    → has_used later p q f ≡ true
has_used-Extends s later p q f grown h =
    rw (grown.links_kept, any-append)
      (ground (
        arith,
        any_mono _
            (λ l.
              has_key p q l
              && (l.source_fragment_id == f
                  || any (λ (c : Correction). superseding l.id c && c.source_fragment_id == f)
                      later.corrections))
            s.links (λ l e. rw (grown.corrections_kept, any-append) (ground (arith, e))) h,
      ))

-- Evidence that once asserted an episode of a key, or retired one, never re-establishes the key: in
-- every later store with one current episode of a key and one correction of an episode at most,
-- REESTABLISH with it returns no result and writes nothing.
pub reestablish_after_use :
    (rival : Store → Store) (link_id p q f : ℕ) (t : ConfirmationType) (now : ℕ) (s later : Store)
    (r : LinkResult)
    → has_used s p q f ≡ true
    → Extends s later
    → IsSound later
    → ((reestablish_procurement_sales_link rival link_id (some p) (some q) f t now later).1 ≡ later)
      × ((reestablish_procurement_sales_link rival link_id (some p) (some q) f t now later).0
          ≢ ok r)
reestablish_after_use rival link_id p q f t now s later r used grown sound =
    reestablish_needs_new_evidence rival link_id p q f t now later r
      (has_used-is_historical later p q f sound (has_used-Extends s later p q f grown used))

episodes_there : (s : Store) (p q : ℕ) → any (has_key p q) s.links ≡ true → list_episodes s p q ≢ []
unfolding list_episodes
episodes_there s p q h empty =
    let there : any (has_key p q) (order_by_created (filter (has_key p q) s.links)) ≡ true =
      rw (any-order_by_created, any-filter) (any_mono _ _ s.links (λ l e. ground (arith, e)) h) in
    ground (arith, there, empty)

-- What ADD returns on a key with a history is about the current episode.
add_returns_current :
    (rival : Store → Store) (link_id p q f : ℕ) (t : ConfirmationType) (now : ℕ) (s : Store)
    (r : LinkResult)
    → list_episodes s p q ≢ []
    → (add_procurement_sales_link rival link_id (some p) (some q) f t now s).0 ≡ ok r
    → (l : Link) × (get_current_link s p q ≡ some l) × (already_there f l ≡ r)
unfolding add_procurement_sales_link add_to_key validate_endpoints
add_returns_current rival link_id p q f t now s r h e =
    elim (Option-cases (get_current_link s p q)) [
      | inl retired ↦ ground (arith, h, e, retired)
      | inr (l, there) ↦ (l, there, ground (arith, e, there))
    ]

-- Once a key has an episode, retired or not, no later ADD of the key writes anything: it returns the
-- key's current episode, or it is refused.
pub add_after_history :
    (rival : Store → Store) (link_id p q f : ℕ) (t : ConfirmationType) (now : ℕ) (s later : Store)
    → any (has_key p q) s.links ≡ true
    → Extends s later
    → let done = add_procurement_sales_link rival link_id (some p) (some q) f t now later in
      (done.1 ≡ later)
      × (((l : Link) × (get_current_link later p q ≡ some l) × (done.0 ≡ ok (already_there f l)))
          ⊎ ((e : Error) × (done.0 ≡ err e)))
add_after_history rival link_id p q f t now s later h grown =
    let done = add_procurement_sales_link rival link_id (some p) (some q) f t now later in
    let there =
      episodes_there later p q
        (rw (grown.links_kept, any-append (has_key p q) s.links grown.more_links, h) refl) in
    (
      add_history_unchanged rival link_id p q f t now later there,
      elim (Result-cases done.0) [
        | inl (r, e) ↦
            let (l, current, same) =
              add_returns_current rival link_id p q f t now later r there e in
            inl (l, current, rw (same, e) refl)
        | inr failed ↦ inr failed
      ],
    )
