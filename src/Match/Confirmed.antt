-- ===== src/Match/Confirmed.antt =====
-- What a `confirm_match` that returns has done: the capacity guard, and that a case is answered once.
use business_execution_ledge.Base.{
  ℕ, ◌≡◌, refl, inl, inr, Bool, true, false, Option, some, List, [], ◌∷◌, arith, ◌==◌, ==_iff,
  Bool-cases, Option-cases,
}
use business_execution_ledge.Base.Lists.{find, all}
use business_execution_ledge.Base.Int.{ℤ, ◌+ℤ◌, ◌≤ℤ◌, ltb_ℤ, eq_of_parts}
use business_execution_ledge.Match.Rows.{
  Contract, SubjectType, invoice_subject, payment_subject, MatchCase, resolved, Allocation, Db,
  get_case, add_allocation, sum_confirmed_for_contract, unique_candidate, human_confirmed,
}
use business_execution_ledge.Match.Capacity.{
  Fits, is_priced, sum_confirmed-add_allocation, sum_confirmed-same,
}
use business_execution_ledge.Match.Invoices.{Invoice, is_purchase}
use business_execution_ledge.Match.Payments.{Payment, is_out}
use business_execution_ledge.Match.Confirm.{
  confirmed, refused, not_waiting, is_waiting, update_status, get_contract, get_invoice,
  get_payment, resolve, allocate, confirm_subject, confirm_match,
}

all-find :
    (p q : Contract → Bool) (cs : List Contract) (c : Contract)
    → all p cs ≡ true
    → find q cs ≡ some c
    → p c ≡ true
all-find p q [] c a e = ground (arith, e)
all-find p q (x ∷ cs) c a e = ground (arith, a, e, all-find p q cs c)

update_status-get :
    (i : ℕ) (at : Option ℕ) (cs cs' : List MatchCase)
    → update_status i resolved at cs ≡ some cs'
    → (c : MatchCase) × (find (λ (x : MatchCase). x.id == i) cs' ≡ some c) × (c.status ≡ resolved)
update_status-get i at [] cs' e = ground (arith, e)
update_status-get i at (c ∷ cs) cs' e = elim (Bool-cases (c.id == i)) [
  | inl b ↦ (record c { status = resolved; resolved_at = at }, ground (arith, b, e), refl)
  | inr b ↦ elim (Option-cases (update_status i resolved at cs)) [
    | inl n ↦ ground (arith, b, n, e)
    | inr (ds, n) ↦
        let (d, f, s) = update_status-get i at cs ds n in (d, ground (arith, b, n, e, f), s)
  ]
]

add_allocation-Fits_same :
    (gross_of : ℕ → ℤ) (t : SubjectType) (a : Allocation) (db : Db)
    → sum_confirmed_for_contract t db a.contract_id +ℤ a.amount ≤ℤ gross_of a.contract_id
    → Fits t gross_of db
    → Fits t gross_of (add_allocation t a db)
add_allocation-Fits_same gross_of t a db room fits i =
    ground (arith, room, fits i, sum_confirmed-add_allocation t db a i, ==_iff a.contract_id i)

-- An allocation that fits leaves each leg fitting.
add_allocation-Fits :
    (gross_of : ℕ → ℤ) (leg t : SubjectType) (a : Allocation) (db : Db)
    → sum_confirmed_for_contract t db a.contract_id +ℤ a.amount ≤ℤ gross_of a.contract_id
    → Fits leg gross_of db
    → Fits leg gross_of (add_allocation t a db)
add_allocation-Fits gross_of invoice_subject payment_subject a db room fits = fits
add_allocation-Fits gross_of payment_subject invoice_subject a db room fits = fits
add_allocation-Fits gross_of invoice_subject invoice_subject a db room fits =
    add_allocation-Fits_same gross_of invoice_subject a db room fits
add_allocation-Fits gross_of payment_subject payment_subject a db room fits =
    add_allocation-Fits_same gross_of payment_subject a db room fits

module _ (contracts : List Contract) (invoices : List Invoice) (payments : List Payment)
    (now : ℕ) where
  -- A call of `resolve` that returns.
  resolve-inv :
      (case_id contract_id : ℕ) (db db' : Db)
      → resolve contracts invoices payments now case_id contract_id db ≡ confirmed db'
      → (update_status case_id resolved (some now) db.match_cases ≡ some db'.match_cases)
        × (db'.invoice_allocations ≡ db.invoice_allocations)
        × (db'.payment_allocations ≡ db.payment_allocations)
  resolve-inv case_id contract_id db db' e =
      elim (Option-cases (update_status case_id resolved (some now) db.match_cases)) [
        | inl n ↦ ground (arith, e, n)
        | inr (cases, n) ↦ ground (arith, e, n)
      ]

  abbrev confirmed_allocation : ℕ → ℤ → ℕ → Contract → Allocation
  confirmed_allocation s amount case_id contract = record {
    subject_id = s;
    contract_id = contract.id;
    match_case_id = case_id;
    amount = amount;
    match_method = unique_candidate;
    confirmation_type = human_confirmed;
    created_at = now;
  }

  allocate-inv :
      (t : SubjectType) (s : ℕ) (amount : ℤ) (case_id : ℕ) (contract : Contract) (db db' : Db)
      → allocate contracts invoices payments now t s amount case_id contract db ≡ confirmed db'
      → (ltb_ℤ contract.gross_amount (sum_confirmed_for_contract t db contract.id +ℤ amount)
          ≡ false)
        × (resolve contracts invoices payments now case_id contract.id
              (add_allocation t (confirmed_allocation s amount case_id contract) db)
            ≡ confirmed db')
  unfolding allocate
  allocate-inv t s amount case_id contract db db' e =
      elim (Bool-cases
        (ltb_ℤ contract.gross_amount (sum_confirmed_for_contract t db contract.id +ℤ amount))) [
          | inl b ↦ ground (arith, e, b)
          | inr b ↦ (b, ground (arith, e, b))
        ]

  confirm_subject-inv :
      (t : SubjectType) (subject_id case_id : ℕ) (contract : Contract) (db db' : Db)
      → confirm_subject contracts invoices payments now t subject_id case_id contract db
        ≡ confirmed db'
      → (s : ℕ) × (amount : ℤ) × (allocate contracts invoices payments now t s amount case_id
            contract db
          ≡ confirmed db')
  unfolding confirm_subject
  confirm_subject-inv invoice_subject subject_id case_id contract db db' e =
      elim (Option-cases (get_invoice contracts invoices payments now subject_id)) [
        | inl n ↦ ground (arith, e, n)
        | inr (i, n) ↦ (
          i.id,
          i.gross_amount,
          elim (Bool-cases (is_purchase i.direction)) [
            | inl d ↦ ground (arith, e, n, d)
            | inr d ↦ ground (arith, e, n, d)
          ],
        )
      ]
  confirm_subject-inv payment_subject subject_id case_id contract db db' e =
      elim (Option-cases (get_payment contracts invoices payments now subject_id)) [
        | inl n ↦ ground (arith, e, n)
        | inr (i, n) ↦ (
          i.id,
          i.amount,
          elim (Bool-cases (is_out i.direction)) [
            | inl d ↦ ground (arith, e, n, d)
            | inr d ↦ ground (arith, e, n, d)
          ],
        )
      ]

  -- A call of `confirm_match` that returns.
  confirm_match-inv :
      (case_id contract_id : ℕ) (db db' : Db)
      → confirm_match contracts invoices payments now case_id contract_id db ≡ confirmed db'
      → (t : SubjectType) × (s : ℕ) × (amount : ℤ) × (contract : Contract) × (get_contract contracts
            invoices payments now contract_id
          ≡ some contract)
        × (allocate contracts invoices payments now t s amount case_id contract db ≡ confirmed db')
  unfolding confirm_match
  confirm_match-inv case_id contract_id db db' e = elim (Option-cases (get_case db case_id)) [
    | inl n ↦ ground (arith, e, n)
    | inr (c, n) ↦ elim (Bool-cases (is_waiting c.status)) [
      | inr w ↦ ground (arith, e, n, w)
      | inl w ↦ elim (Option-cases (get_contract contracts invoices payments now contract_id)) [
        | inl k ↦ ground (arith, e, n, w, k)
        | inr (contract, k) ↦
            let (s, amount, a) =
              confirm_subject-inv c.subject_type c.subject_id case_id contract db db'
                (ground (arith, e, n, w, k)) in
            (c.subject_type, s, amount, contract, k, a)
      ]
    ]
  ]

  -- A confirmation that returns takes no contract over its gross amount on a leg, when `gross_of` is
  -- what the contracts say and no contract was over on that leg before.
  pub confirm_match-Fits :
      (gross_of : ℕ → ℤ) (leg : SubjectType) (case_id contract_id : ℕ) (db db' : Db)
      → all (is_priced gross_of) contracts ≡ true
      → confirm_match contracts invoices payments now case_id contract_id db ≡ confirmed db'
      → Fits leg gross_of db
      → Fits leg gross_of db'
  confirm_match-Fits gross_of leg case_id contract_id db db' priced e fits i =
      let (t, s, amount, contract, k, a) = confirm_match-inv case_id contract_id db db' e in
      let (room, r) = allocate-inv t s amount case_id contract db db' a in
      let x = confirmed_allocation s amount case_id contract in
      let (_, p, q) = resolve-inv case_id contract.id (add_allocation t x db) db' r in
      let h =
        all-find (is_priced gross_of) (λ (c : Contract). c.id == contract_id) contracts contract
          priced k in
      rw (sum_confirmed-same leg (add_allocation t x db) db' i p q) (
        add_allocation-Fits gross_of leg t x db
          (ground (arith, room, eq_of_parts contract.gross_amount (gross_of contract.id), h)) fits
          i)

  -- A case that has been confirmed is resolved, and is not confirmed again.
  pub confirm_match-once :
      (case_id contract_id other : ℕ) (db db' : Db)
      → confirm_match contracts invoices payments now case_id contract_id db ≡ confirmed db'
      → confirm_match contracts invoices payments now case_id other db' ≡ refused not_waiting
  unfolding confirm_match
  confirm_match-once case_id contract_id other db db' e =
      let (t, s, amount, contract, k, a) = confirm_match-inv case_id contract_id db db' e in
      let (_, r) = allocate-inv t s amount case_id contract db db' a in
      let (m, _, _) =
        resolve-inv case_id contract.id
          (add_allocation t (confirmed_allocation s amount case_id contract) db) db' r in
      let (c, g, x) =
        update_status-get case_id (some now)
          (add_allocation t (confirmed_allocation s amount case_id contract) db).match_cases
          db'.match_cases m in
      ground (arith, g, x)
