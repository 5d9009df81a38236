-- ===== src/Link/Current.antt =====
-- Which episode is current after ADD and REESTABLISH have returned.
use business_execution_ledge.Base.{
  ℕ, ◌≡◌, Bool, true, false, none, some, List, [], ◌∷◌, ◌++◌, arith, ◌==◌, Bool-cases, inl, inr,
}
use business_execution_ledge.Base.Lists.{any, find, find-append}
use business_execution_ledge.Link.Rows.{ConfirmationType, Link, Store, ok, human_confirmed}
use business_execution_ledge.Link.Repository.{
  get, is_corrected, current_of, get_current_link, insert_episode_if_no_current,
}
use business_execution_ledge.Link.Commands.{
  LinkResult, add_to_key, add_procurement_sales_link, validate_endpoints, insert_or_yield,
  created_episode, flag_multiple_sales_scopes_if_ambiguous,
}
use business_execution_ledge.Link.Corrections.{
  reestablish_procurement_sales_link, reestablish_key, insert_or_conflict,
}

-- `uuid4` has drawn an id that no row of the store has.
pub record IsFresh (i : ℕ) (s : Store) : Type 0 where
  pub no_link : any (λ (l : Link). l.id == i) s.links ≡ false
  pub no_correction : is_corrected s.corrections i ≡ false

links-flag :
    (p now : ℕ) (s : Store)
    → ((flag_multiple_sales_scopes_if_ambiguous p now s).links ≡ s.links)
      × ((flag_multiple_sales_scopes_if_ambiguous p now s).corrections ≡ s.corrections)
unfolding flag_multiple_sales_scopes_if_ambiguous
links-flag p now s = (ground arith, ground arith)

pub find_last :
    (p : Link → Bool) (ls : List Link) (l : Link)
    → any p ls ≡ false
    → p l ≡ true
    → find p (ls ++ l ∷ []) ≡ some l
find_last p ls l h e = rw (find-append p ls (l ∷ []), h, e)

-- The row that was just inserted is read back, and it is the current one.
current_of_created :
    (l : Link) (now : ℕ) (s : Store)
    → IsFresh l.id s
    → any (current_of s.corrections l.procurement_contract_id l.sales_contract_id) s.links ≡ false
    → let (r, t) = created_episode l now (record s { links = s.links ++ l ∷ [] }) in
      (r ≡ ok (record { link = l; created = true; replay = false; corroborating = false }))
      × (get_current_link t l.procurement_contract_id l.sales_contract_id ≡ some l)
unfolding created_episode get get_current_link
current_of_created l now s fresh free = ground (
  arith,
  links-flag l.procurement_contract_id now (record s { links = s.links ++ l ∷ [] }),
  find_last (λ (m : Link). m.id == l.id) s.links l fresh.no_link,
  find_last (current_of s.corrections l.procurement_contract_id l.sales_contract_id) s.links l free,
  fresh.no_correction,
)

inserted_current :
    (rival : Store → Store) (l : Link) (now : ℕ) (s : Store) (r : LinkResult)
    → IsFresh l.id (rival s)
    → (insert_or_yield rival l now s).0 ≡ ok r
    → get_current_link
        (insert_or_yield rival l now s).1
        l.procurement_contract_id
        l.sales_contract_id
      ≡ some r.link
unfolding insert_or_yield insert_episode_if_no_current
inserted_current rival l now s r fresh e =
    let u = rival s in
    elim (Bool-cases
      (any (current_of u.corrections l.procurement_contract_id l.sales_contract_id) u.links)) [
        | inl taken ↦ ground (arith, taken, e)
        | inr free ↦ ground (arith, current_of_created l now u fresh free, e)
      ]

-- Whenever ADD returns, with an id that no row has, its result is the current episode of the key in
-- the store that it leaves: a new one, the one that was there, or the one that a rival put there
-- first.
pub add_current :
    (rival : Store → Store) (link_id p q f : ℕ) (t : ConfirmationType) (now : ℕ) (s : Store)
    → IsFresh link_id (rival s)
    → (r : LinkResult)
    → (add_procurement_sales_link rival link_id (some p) (some q) f t now s).0 ≡ ok r
    → get_current_link (add_procurement_sales_link rival link_id (some p) (some q) f t now s).1 p q
      ≡ some r.link
unfolding add_procurement_sales_link add_to_key validate_endpoints
add_current rival link_id p q f t now s fresh r = ground (
  arith,
  inserted_current rival
      (record {
        id = link_id;
        procurement_contract_id = p;
        sales_contract_id = q;
        source_fragment_id = f;
        confirmation_type = t;
        created_at = now;
      })
      now s r fresh,
)

-- Whenever REESTABLISH returns, with an id that no row has, a human confirmed it and the key had no
-- current episode; its result is a new episode with the evidence given, which is then current.
pub reestablish_current :
    (rival : Store → Store) (link_id p q f : ℕ) (t : ConfirmationType) (now : ℕ) (s : Store)
    → IsFresh link_id (rival s)
    → (r : LinkResult)
    → (reestablish_procurement_sales_link rival link_id (some p) (some q) f t now s).0 ≡ ok r
    → (t ≡ human_confirmed)
      × (get_current_link s p q ≡ none)
      × (r.created ≡ true)
      × (r.link.id ≡ link_id)
      × (r.link.source_fragment_id ≡ f)
      × (get_current_link
            (reestablish_procurement_sales_link rival link_id (some p) (some q) f t now s).1
            p
            q
          ≡ some r.link)
unfolding reestablish_procurement_sales_link reestablish_key validate_endpoints insert_or_conflict
    insert_episode_if_no_current
reestablish_current rival link_id p q f t now s fresh r h =
    elim (Bool-cases (any (current_of (rival s).corrections p q) (rival s).links)) [
      | inl taken ↦ ground (arith, taken, h)
      | inr free ↦ ground (
        arith,
        h,
        current_of_created
            (record {
              id = link_id;
              procurement_contract_id = p;
              sales_contract_id = q;
              source_fragment_id = f;
              confirmation_type = t;
              created_at = now;
            })
            now (rival s) fresh free,
      )
    ]
