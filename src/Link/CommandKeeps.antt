-- ===== src/Link/CommandKeeps.antt =====
-- Every command of the bridge keeps what its writes keep.
use business_execution_ledge.Base.{
  ℕ, refl, true, false, Option, none, some, ◌∷◌, ◌&&◌, ◌==◌, if◌then◌else◌,
}
use business_execution_ledge.Link.Rows.{
  ConfirmationType, Link, Correction, Store, ok, Reason, pure, unconfirmed,
}
use business_execution_ledge.Link.Repository.{
  add_task, has_open_task, insert_episode_if_no_current, add_correction_if_uncorrected,
  list_episodes, get_current_link, get_correction_for_superseded, get, is_current,
}
use business_execution_ledge.Link.Commands.{
  flag_multiple_sales_scopes_if_ambiguous, created_episode, insert_or_yield, add_to_key,
  add_procurement_sales_link, record_unconfirmed_procurement_sales_link, validate_endpoints,
  require, is_human, is_unconfirmed, validate_confirmation_type, require_procurement_contract,
  require_sales_contract, require_fragment,
}
use business_execution_ledge.Link.Corrections.{
  resolve_replacement, write_correction, again_corrected, correct_target, replacement_key,
  correct_procurement_sales_link, insert_or_conflict, same_replacement_business_key,
  replacement_episode, correction_row, require_replacement, require_link, reestablish_key,
  is_historical, reestablish_procurement_sales_link,
}
use business_execution_ledge.Link.Keeps.{
  Invariant, Safe, Keeps, left, flag_multiple-keeps, flag_correction_conflict-keeps, option-Left,
  bool-Left, branch-Left, list-Left, result-Left, bind-Keeps, check-Keeps, if-Keeps, checked-Keeps,
  required-Keeps,
}

module _ (P : Store → Type 0) (inv : Invariant P) where
  created_episode-Keeps : (l : Link) (now : ℕ) → Keeps P (created_episode l now)
  unfolding created_episode
  created_episode-Keeps l now s h =
      let k = flag_multiple-keeps P inv l.procurement_contract_id now s h in
      option-Left P inv
        (get (flag_multiple_sales_scopes_if_ambiguous l.procurement_contract_id now s) l.id) _ _
        (left P inv _ _ k) (λ _ _. left P inv _ _ k)

  validate_endpoints-Keeps : (p q : Option ℕ) → Keeps P (validate_endpoints p q)
  unfolding validate_endpoints
  validate_endpoints-Keeps none q s h = left P inv _ s h
  validate_endpoints-Keeps (some p) none s h = left P inv _ s h
  validate_endpoints-Keeps (some p) (some q) s h = left P inv _ s h

  again_corrected-Keeps :
      (i f now : ℕ) (key : Option (ℕ × ℕ)) (c : Correction)
      → Keeps P (again_corrected i f now key c)
  unfolding again_corrected
  again_corrected-Keeps i f now key c s h =
      branch-Left P inv (c.source_fragment_id == f && same_replacement_business_key s c key) _ _
        (left P inv _ s h) (left P inv _ _ (flag_correction_conflict-keeps P inv i f now s h))

  pub record_unconfirmed-Keeps :
      (p? q? : Option ℕ) (f now : ℕ)
      → Keeps P (record_unconfirmed_procurement_sales_link p? q? f now)
  unfolding record_unconfirmed_procurement_sales_link
  record_unconfirmed-Keeps p? q? f now =
      bind-Keeps P inv (validate_endpoints p? q?) _ (validate_endpoints-Keeps p? q?) λ pq.
        required-Keeps P inv (require_fragment f) _ (λ _. refl)
          (checked-Keeps P inv (λ s. ok (has_open_task (is_unconfirmed pq.0 pq.1 f) s)) _
            λ seen.
              if-Keeps P inv seen (pure false)
                (λ s. (ok true, add_task (unconfirmed pq.0 pq.1 f) now s))
                (λ s h. left P inv (ok false) s h)
                (λ s h. left P inv (ok true) _ (inv.task _ now s h)))

  module _ (rival : Store → Store) (safe : Safe P rival) where
    inserted-keeps : (l : Link) (s : Store) → P s → P (insert_episode_if_no_current l (rival s)).1
    inserted-keeps l s h = inv.insert l (rival s) (safe.at s h)

    insert_or_yield-Keeps : (l : Link) (now : ℕ) → Keeps P (insert_or_yield rival l now)
    unfolding insert_or_yield
    insert_or_yield-Keeps l now s h =
        let k = inserted-keeps l s h in
        let t = (insert_episode_if_no_current l (rival s)).1 in
        bool-Left P inv (insert_episode_if_no_current l (rival s)).0 _ _
          (λ _. created_episode-Keeps l now t k)
          (λ _.
            option-Left P inv (get_current_link t l.procurement_contract_id l.sales_contract_id) _ _
              (left P inv _ t k) (λ _ _. left P inv _ t k))

    add_to_key-Keeps : (l : Link) (now : ℕ) → Keeps P (add_to_key rival l now)
    unfolding add_to_key
    add_to_key-Keeps l now s h =
        option-Left P inv (get_current_link s l.procurement_contract_id l.sales_contract_id) _ _
          (list-Left P inv (list_episodes s l.procurement_contract_id l.sales_contract_id) _ _
            (insert_or_yield-Keeps l now s h) (λ _ _. left P inv _ s h))
          (λ _ _. left P inv _ s h)

    pub add_procurement_sales_link-Keeps :
        (link_id : ℕ) (p q : Option ℕ) (f : ℕ) (t : ConfirmationType) (now : ℕ)
        → Keeps P (add_procurement_sales_link rival link_id p q f t now)
    unfolding add_procurement_sales_link
    add_procurement_sales_link-Keeps link_id p q f t now =
        bind-Keeps P inv (validate_endpoints p q) _ (validate_endpoints-Keeps p q) λ pq.
          required-Keeps P inv (validate_confirmation_type t) _ (λ _. refl)
            (required-Keeps P inv (require_procurement_contract pq.0) _ (λ _. refl)
              (required-Keeps P inv (require_sales_contract pq.1) _ (λ _. refl)
                (required-Keeps P inv (require_fragment f) _ (λ _. refl) (add_to_key-Keeps _ now))))

    insert_or_conflict-Keeps : (l : Link) (now : ℕ) → Keeps P (insert_or_conflict rival l now)
    unfolding insert_or_conflict
    insert_or_conflict-Keeps l now s h =
        let k = inserted-keeps l s h in
        bool-Left P inv (insert_episode_if_no_current l (rival s)).0 _ _
          (λ _. created_episode-Keeps l now _ k) (λ _. left P inv _ _ k)

    reestablish_key-Keeps : (l : Link) (now : ℕ) → Keeps P (reestablish_key rival l now)
    unfolding reestablish_key
    reestablish_key-Keeps l now s h =
        list-Left P inv (list_episodes s l.procurement_contract_id l.sales_contract_id) _ _
          (left P inv _ s h)
          λ e es.
            option-Left P inv (get_current_link s l.procurement_contract_id l.sales_contract_id) _ _
              (branch-Left P inv (is_historical s l.source_fragment_id (e ∷ es)) _ _
                (left P inv _ s h) (insert_or_conflict-Keeps l now s h))
              (λ _ _. left P inv _ s h)

    pub reestablish_procurement_sales_link-Keeps :
        (link_id : ℕ) (p q : Option ℕ) (f : ℕ) (t : ConfirmationType) (now : ℕ)
        → Keeps P (reestablish_procurement_sales_link rival link_id p q f t now)
    unfolding reestablish_procurement_sales_link
    reestablish_procurement_sales_link-Keeps link_id p q f t now =
        required-Keeps P inv (require (is_human t) Reason.needs_human_confirmation) _ (λ _. refl)
          (bind-Keeps P inv (validate_endpoints p q) _ (validate_endpoints-Keeps p q) λ pq.
            required-Keeps P inv (require_procurement_contract pq.0) _ (λ _. refl)
              (required-Keeps P inv (require_sales_contract pq.1) _ (λ _. refl)
                (required-Keeps P inv (require_fragment f) _ (λ _. refl)
                  (reestablish_key-Keeps _ now))))

    resolve_replacement-Keeps :
        (link_id f : ℕ) (t : ConfirmationType) (now : ℕ) (key : Option (ℕ × ℕ))
        → Keeps P (resolve_replacement rival link_id f t now key)
    unfolding resolve_replacement
    resolve_replacement-Keeps link_id f t now none s h = left P inv _ _ (safe.at s h)
    resolve_replacement-Keeps link_id f t now (some (p, q)) s h =
        let l = replacement_episode link_id p q f t now in
        let k = inserted-keeps l s h in
        let t' = (insert_episode_if_no_current l (rival s)).1 in
        option-Left P inv (get_current_link s p q) _ _
          (option-Left P inv
            (if (insert_episode_if_no_current l (rival s)).0
              then get t' link_id
              else get_current_link t' p q)
            _ _ (left P inv _ t' k) (λ _ _. left P inv _ t' k))
          (λ _ _. left P inv _ _ (safe.at s h))

    module _ (rival' : Store → Store) (safe' : Safe P rival') where
      write_correction-Keeps :
          (link_id correction_id i f : ℕ) (t : ConfirmationType) (now : ℕ) (key : Option (ℕ × ℕ))
          → Keeps P (write_correction rival rival' link_id correction_id i f t now key)
      unfolding write_correction
      write_correction-Keeps link_id correction_id i f t now key s h =
          let m = resolve_replacement rival link_id f t now key s in
          let k = safe'.at m.1 (resolve_replacement-Keeps link_id f t now key s h).holds in
          result-Left P inv m.0 _ _
            (λ replacement.
              let c = correction_row correction_id i replacement f t now in
              let w = add_correction_if_uncorrected c (rival' m.1) in
              let kw = inv.correct c (rival' m.1) k in
              bool-Left P inv w.0 _ _
                (λ _.
                  option-Left P inv (get_correction_for_superseded w.1 i) _ _ (left P inv _ w.1 kw)
                    (λ _ _. left P inv _ w.1 kw))
                (λ _.
                  left P inv _ _
                    (flag_correction_conflict-keeps P inv i f now _ (safe'.at _ (safe.at s h)))))
            (λ e. left P inv _ _ (resolve_replacement-Keeps link_id f t now key s h).holds)

      require_replacement-Keeps : (key : Option (ℕ × ℕ)) → Keeps P (require_replacement key)
      require_replacement-Keeps none = check-Keeps P inv _
      require_replacement-Keeps (some (p, q)) =
          required-Keeps P inv (require_procurement_contract p) _ (λ _. refl) (check-Keeps P inv _)

      correct_target-Keeps :
          (link_id correction_id i f : ℕ) (t : ConfirmationType) (now : ℕ) (key : Option (ℕ × ℕ))
          → Keeps P (correct_target rival rival' link_id correction_id i f t now key)
      unfolding correct_target
      correct_target-Keeps link_id correction_id i f t now key s h =
          option-Left P inv (get_correction_for_superseded s i) _ _
            (branch-Left P inv (is_current s i) _ _
              (bind-Keeps P inv (require_replacement key) _ (require_replacement-Keeps key)
                (λ _. write_correction-Keeps link_id correction_id i f t now key) s h)
              (left P inv _ s h))
            (λ c _. again_corrected-Keeps i f now key c s h)

      require_link-Keeps : (i : ℕ) → Keeps P (require_link i)
      require_link-Keeps i s h =
          option-Left P inv (get s i) _ _ (left P inv _ s h) (λ _ _. left P inv _ s h)

      pub correct_procurement_sales_link-Keeps :
          (link_id correction_id i f : ℕ) (t : ConfirmationType) (now : ℕ) (p q : Option ℕ)
          → Keeps P
              (correct_procurement_sales_link rival rival' link_id correction_id i f t now p q)
      unfolding correct_procurement_sales_link
      correct_procurement_sales_link-Keeps link_id correction_id i f t now p q =
          required-Keeps P inv (require (is_human t) Reason.needs_human_confirmation) _ (λ _. refl)
            (required-Keeps P inv (require_fragment f) _ (λ _. refl)
              (checked-Keeps P inv (λ _. replacement_key p q) _
                λ key.
                  bind-Keeps P inv (require_link i) _ (require_link-Keeps i)
                    λ _. correct_target-Keeps link_id correction_id i f t now key))
