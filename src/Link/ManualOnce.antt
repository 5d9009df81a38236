-- ===== src/Link/ManualOnce.antt =====
-- The digest of a manual re-establishment names the pair of contracts alone, so its evidence is the
-- same every time.
use business_execution_ledge.Base.{
  ℕ, ◌≡◌, ◌≢◌, refl, true, ◌&&◌, some, List, [], ◌∷◌, ◌++◌, arith, ◌==◌, ==_self, present,
  Option-cases, inl, inr,
}
use business_execution_ledge.Base.Lists.{
  any, all, find, find-append, any-append, any-false_of_find, any-true_of_find,
}
use business_execution_ledge.Link.Rows.{Action, Link, Store, ok, human_confirmed}
use business_execution_ledge.Link.Repository.{has_key, current_of, get_current_link}
use business_execution_ledge.Link.Commands.{LinkResult}
use business_execution_ledge.Link.Corrections.{reestablish_procurement_sales_link}
use business_execution_ledge.Link.Current.{IsFresh, reestablish_current}
use business_execution_ledge.Link.Outcomes.{reestablish_needs_new_evidence, Result-cases}
use business_execution_ledge.Link.Run.{Extends}
use business_execution_ledge.Link.Evidence.{asserted-is_historical}
use business_execution_ledge.Link.Manual.{
  Payload, reestablish_payload, Document, Session, find_document_by_sha256, existing_fragment,
  find_or_build_manual_fragment, serialized, execute_reestablish_procurement_sales_link,
}

-- The current episode is one of the key's, with its own evidence.
current_asserts :
    (s : Store) (p q f : ℕ) (l : Link)
    → get_current_link s p q ≡ some l
    → l.source_fragment_id ≡ f
    → any (λ (m : Link). has_key p q m && m.source_fragment_id == f) s.links ≡ true
unfolding get_current_link
current_asserts s p q f l h e = go s.links h
  where
    go :
        (ls : List Link)
        → find (current_of s.corrections p q) ls ≡ some l
        → any (λ (m : Link). has_key p q m && m.source_fragment_id == f) ls ≡ true
    go [] x = cc
    go (m ∷ ls) x = ground (arith, e, go ls)

found_present :
    (h : ℕ) (ds : List Document) (d : Document)
    → all (λ (x : Document). present x.fragment) ds ≡ true
    → find (λ (x : Document). x.sha256 == h) ds ≡ some d
    → present d.fragment ≡ true
found_present h [] d full e = cc
found_present h (x ∷ ds) d full e = ground (arith, found_present h ds d)

-- The fragment that a payload was given is the one that its digest finds from then on.
found_again :
    (h fragment_id : ℕ) (e : Session) (later : List Document)
    → all (λ (d : Document). present d.fragment) e.documents ≡ true
    → let (f, e') = find_or_build_manual_fragment h fragment_id e in
      existing_fragment h (e'.documents ++ later) ≡ some f
unfolding find_or_build_manual_fragment find_document_by_sha256
found_again h fragment_id e later full =
    let test = λ (x : Document). x.sha256 == h in
    let new : Document = record { sha256 = h; fragment = some fragment_id } in
    elim (Option-cases (find test e.documents)) [
      | inl absent ↦ ground (
        arith,
        absent,
        find-append test (e.documents ++ new ∷ []) later,
        find-append test e.documents (new ∷ []),
        any-append test e.documents (new ∷ []),
        any-false_of_find test e.documents absent,
        ==_self h,
      )
      | inr (d, there) ↦ elim (Option-cases d.fragment) [
        | inl missing ↦ ground (arith, missing, found_present h e.documents d full there)
        | inr (f, has) ↦ ground (
          arith,
          there,
          has,
          find-append test e.documents later,
          any-true_of_find test e.documents d there,
        )
      ]
    ]

found_fragment :
    (h fragment_id f : ℕ) (e : Session)
    → existing_fragment h e.documents ≡ some f
    → find_or_build_manual_fragment h fragment_id e ≡ (f, e)
unfolding find_or_build_manual_fragment
found_fragment h fragment_id f e there = ground (arith, there)

serialized_ok :
    {A : Type 0} (m : Action A) (before e : Session) (a : A)
    → (serialized m before e).0 ≡ ok a
    → ((m e.store).0 ≡ ok a)
      × ((serialized m before e).1.store ≡ (m e.store).1)
      × ((serialized m before e).1.documents ≡ e.documents)
unfolding serialized
serialized_ok m before e a h = elim (Result-cases (m e.store).0) [
  | inl (b, fine) ↦ ground (arith, fine, h)
  | inr (x, failed) ↦ ground (arith, failed, h)
]

IsFresh-after_fragment :
    (i h fragment_id : ℕ) (e : Session)
    → IsFresh i e.store
    → IsFresh i (find_or_build_manual_fragment h fragment_id e).1.store
unfolding find_or_build_manual_fragment
IsFresh-after_fragment i h fragment_id e fresh =
    elim (Option-cases (existing_fragment h e.documents)) [
      | inl absent ↦ record {
        no_link = ground (arith, absent, fresh.no_link);
        no_correction = ground (arith, absent, fresh.no_correction);
      }
      | inr (f, there) ↦ record {
        no_link = ground (arith, there, fresh.no_link);
        no_correction = ground (arith, there, fresh.no_correction);
      }
    ]

module _ (sha256 : Payload → ℕ) (fragment_id link_id p q now : ℕ) (e : Session) where
  -- The fragment of a manual re-establishment asserts an episode of the pair afterwards.
  manual_asserts :
      (r : LinkResult)
      → IsFresh link_id e.store
      → (execute_reestablish_procurement_sales_link sha256 fragment_id link_id p q now e).0 ≡ ok r
      → let (f, e') =
          find_or_build_manual_fragment (sha256 (reestablish_payload p q)) fragment_id e in
        let t =
          (execute_reestablish_procurement_sales_link sha256 fragment_id link_id p q now e).1 in
        (any (λ (m : Link). has_key p q m && m.source_fragment_id == f) t.store.links ≡ true)
        × (t.documents ≡ e'.documents)
  unfolding execute_reestablish_procurement_sales_link
  manual_asserts r fresh h =
      let (f, e') =
        find_or_build_manual_fragment (sha256 (reestablish_payload p q)) fragment_id e in
      let run =
        reestablish_procurement_sales_link (λ s. s) link_id (some p) (some q) f human_confirmed
          now in
      let done = serialized_ok run e e' r h in
      let made =
        reestablish_current (λ s. s) link_id p q f human_confirmed now e'.store
          (IsFresh-after_fragment link_id _ fragment_id e fresh) r done.0 in
      (rw done.1 (current_asserts (run e'.store).1 p q f r.link made.5 made.4), done.2)

  -- Where the payload's fragment asserts an episode, a manual re-establishment does not return.
  manual_refused :
      (f : ℕ) (r : LinkResult)
      → existing_fragment (sha256 (reestablish_payload p q)) e.documents ≡ some f
      → any (λ (m : Link). has_key p q m && m.source_fragment_id == f) e.store.links ≡ true
      → (execute_reestablish_procurement_sales_link sha256 fragment_id link_id p q now e).0 ≢ ok r
  unfolding execute_reestablish_procurement_sales_link
  manual_refused f r there asserted =
      rw
        (
          found_fragment (sha256 (reestablish_payload p q)) fragment_id f e there,
          execute_reestablish_procurement_sales_link,
        )
        λ h.
          let run =
            reestablish_procurement_sales_link (λ s. s) link_id (some p) (some q) f human_confirmed
              now in
          (reestablish_needs_new_evidence (λ s. s) link_id p q f human_confirmed now e.store r
              (asserted-is_historical e.store p q f asserted)).1
            (serialized_ok run e e r h).0

-- Once a manual REESTABLISH of a pair has returned, in a session whose documents all have their
-- fragment and with an id that no row has, no later one of the same pair returns a result in any
-- session that has grown from the one that it left: its payload finds the fragment of the first
-- again, which is historical evidence by then.
pub manual_reestablish_once :
    (sha256 : Payload → ℕ) (fragment_id link_id p q now : ℕ) (e : Session) (r : LinkResult)
    → all (λ (d : Document). present d.fragment) e.documents ≡ true
    → IsFresh link_id e.store
    → (execute_reestablish_procurement_sales_link sha256 fragment_id link_id p q now e).0 ≡ ok r
    → (later : Session) (ds : List Document)
    → Extends
        (execute_reestablish_procurement_sales_link sha256 fragment_id link_id p q now e).1.store
        later.store
    → later.documents
      ≡ (execute_reestablish_procurement_sales_link sha256 fragment_id link_id p q now
          e).1.documents
        ++ ds
    → (fragment_id' link_id' now' : ℕ) (r' : LinkResult)
    → (execute_reestablish_procurement_sales_link sha256 fragment_id' link_id' p q now' later).0
      ≢ ok r'
manual_reestablish_once sha256 fragment_id link_id p q now e r full fresh h later ds grown docs
      fragment_id' link_id' now' r' =
    let h' = sha256 (reestablish_payload p q) in
    let (f, e') = find_or_build_manual_fragment h' fragment_id e in
    let first = manual_asserts sha256 fragment_id link_id p q now e r fresh h in
    let seen = λ (m : Link). has_key p q m && m.source_fragment_id == f in
    let t = (execute_reestablish_procurement_sales_link sha256 fragment_id link_id p q now e).1 in
    manual_refused sha256 fragment_id' link_id' p q now' later f r'
      (rw (docs, first.1) (found_again h' fragment_id e ds full))
      (rw grown.links_kept (rw (any-append seen t.store.links grown.more_links, first.0) refl))
