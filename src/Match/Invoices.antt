-- ===== src/Match/Invoices.antt =====
-- `match_invoices` of application/matching.py, over domain/invoice.py. Quantities and prices are
-- integers of ten-thousandths, rates of millionths.
use business_execution_ledge.Base.{
  ℕ, Bool, true, false, ◌&&◌, ◌||◌, Option, none, some, List, [], ◌∷◌, ltb, ◌==◌, eq_option,
}
use business_execution_ledge.Base.Lists.{filter}
use business_execution_ledge.Base.Int.{ℤ, ltb_ℤ, ◌==ℤ◌}
use business_execution_ledge.Match.Text.{Text, Unicode, text_eq, text_ltb}
use business_execution_ledge.Match.Rows.{Contract, Db, invoice_subject}
use business_execution_ledge.Match.Candidates.{
  date_ltb, date_eq, contract_ltb, sorted, first_usable_key,
}
use business_execution_ledge.Match.Subjects.{Subjects, PassState}
use business_execution_ledge.Match.Pass.{run_match_pass}

pub data InvoiceDirection : Type 0 where
  purchase : InvoiceDirection
  sales : InvoiceDirection
  unknown : InvoiceDirection

abbrev pub is_purchase : InvoiceDirection → Bool
is_purchase purchase = true
is_purchase _ = false

abbrev pub same_direction : InvoiceDirection → InvoiceDirection → Bool
same_direction purchase purchase = true
same_direction sales sales = true
same_direction unknown unknown = true
same_direction _ _ = false

pub record Invoice : Type 0 where
  pub id : ℕ
  pub direction : InvoiceDirection
  pub invoice_type : Option Text
  pub invoice_no : Option Text
  pub digital_invoice_no : Option Text
  pub external_invoice_key : Option Text
  pub issue_date : Option ℕ
  pub seller : Option Text
  pub buyer : Option Text
  pub net_amount : ℤ
  pub tax_amount : ℤ
  pub gross_amount : ℤ
  pub invoice_status : Option Text
  pub currency : Option Text

pub record InvoiceItem : Type 0 where
  pub id : ℕ
  pub invoice_id : ℕ
  pub line_no : ℕ
  pub product_name : Option Text
  pub specification : Option Text
  pub unit : Option Text
  pub quantity : Option ℤ
  pub unit_price : Option ℤ
  pub net_amount : ℤ
  pub tax_rate : Option ℤ
  pub tax_amount : ℤ
  pub gross_amount : ℤ

abbrev amount_eq : ℤ → ℤ → Bool
amount_eq a b = a ==ℤ b

-- `item_state`: a tuple of all but the ids.
unfoldable pub item_eq : InvoiceItem → InvoiceItem → Bool
item_eq a b =
    a.line_no == b.line_no
    && (eq_option text_eq a.product_name b.product_name
        && (eq_option text_eq a.specification b.specification
            && (eq_option text_eq a.unit b.unit
                && (eq_option amount_eq a.quantity b.quantity
                    && (eq_option amount_eq a.unit_price b.unit_price
                        && (a.net_amount ==ℤ b.net_amount
                            && (eq_option amount_eq a.tax_rate b.tax_rate
                                && (a.tax_amount ==ℤ b.tax_amount
                                    && a.gross_amount ==ℤ b.gross_amount))))))))

-- One component of the order of tuples, and the rest of them. Python refuses to order None and a
-- value; such a pair counts here as not in order.
abbrev option_ltb : {A : Type 0} → (A → A → Bool) → Option A → Option A → Bool
option_ltb before (some a) (some b) = before a b
option_ltb before _ _ = false

abbrev then_by : {A : Type 0} → (A → A → Bool) → (A → A → Bool) → A → A → Bool → Bool
then_by before same a b rest = before a b || (same a b && rest)

abbrev then_by_text : Option Text → Option Text → Bool → Bool
then_by_text a b rest = then_by (option_ltb text_ltb) (eq_option text_eq) a b rest

abbrev then_by_option : Option ℤ → Option ℤ → Bool → Bool
then_by_option a b rest = then_by (option_ltb ltb_ℤ) (eq_option amount_eq) a b rest

abbrev then_by_amount : ℤ → ℤ → Bool → Bool
then_by_amount a b rest = then_by ltb_ℤ amount_eq a b rest

unfoldable pub item_ltb : InvoiceItem → InvoiceItem → Bool
item_ltb a b =
    then_by ltb (λ x y. x == y) a.line_no b.line_no
      (then_by_text a.product_name b.product_name (
        then_by_text a.specification b.specification (
          then_by_text a.unit b.unit (
            then_by_option a.quantity b.quantity (
              then_by_option a.unit_price b.unit_price (
                then_by_amount a.net_amount b.net_amount (
                  then_by_option a.tax_rate b.tax_rate (
                    then_by_amount a.tax_amount b.tax_amount
                      (ltb_ℤ a.gross_amount b.gross_amount)))))))))

unfoldable pub items_eq : List InvoiceItem → List InvoiceItem → Bool
items_eq [] [] = true
items_eq (a ∷ as') (b ∷ bs) = item_eq a b && items_eq as' bs
items_eq _ _ = false

-- Equality of two `invoice_equivalence_state`s: the invoices, and their items in order.
unfoldable pub invoice_state_eq : Invoice × List InvoiceItem → Invoice × List InvoiceItem → Bool
invoice_state_eq (i, items) (j, items') =
    same_direction i.direction j.direction
    && (eq_option text_eq i.invoice_type j.invoice_type
        && (date_eq i.issue_date j.issue_date
            && (eq_option text_eq i.seller j.seller
                && (eq_option text_eq i.buyer j.buyer
                    && (i.net_amount ==ℤ j.net_amount
                        && (i.tax_amount ==ℤ j.tax_amount
                            && (i.gross_amount ==ℤ j.gross_amount
                                && (eq_option text_eq i.invoice_status j.invoice_status
                                    && (eq_option text_eq i.currency j.currency
                                        && items_eq items items')))))))))

module _ (u : Unicode) where
  abbrev pub business_key : Invoice → Option Text
  business_key i =
      first_usable_key u (i.external_invoice_key ∷ i.digital_invoice_no ∷ i.invoice_no ∷ [])

  -- None is last.
  abbrev business_key_ltb : Option Text → Option Text → Bool
  business_key_ltb (some s) (some t) = text_ltb s t
  business_key_ltb (some s) none = true
  business_key_ltb none _ = false

  -- `_invoice_chronological_key(i) < _invoice_chronological_key(j)`.
  unfoldable pub invoice_ltb : Invoice → Invoice → Bool
  invoice_ltb i j = then_by date_ltb date_eq i.issue_date j.issue_date (
      then_by business_key_ltb (eq_option text_eq) (business_key i) (business_key j)
        (ltb i.id j.id))

  abbrev pub invoice_subjects :
      List InvoiceItem → Subjects Invoice Text (Invoice × List InvoiceItem)
  invoice_subjects items = record {
    subject_type = invoice_subject;
    get_id = λ (i : Invoice). i.id;
    get_amount = λ (i : Invoice). i.gross_amount;
    get_counterparty = λ (i : Invoice). i.seller;
    get_date = λ (i : Invoice). i.issue_date;
    get_identity = business_key;
    key_eq = text_eq;
    key_ltb = text_ltb;
    get_state = λ (i : Invoice).
        (i, sorted item_ltb (filter (λ (it : InvoiceItem). it.invoice_id == i.id) items));
    state_eq = invoice_state_eq;
  }

  unfoldable pub match_invoices :
      (ℕ → ℕ) → ℕ → List Contract → List Invoice → List InvoiceItem → Db → PassState
  match_invoices draw now contracts invoices items db =
      run_match_pass u (invoice_subjects items) (sorted contract_ltb contracts) draw now
        (sorted invoice_ltb (filter (λ (i : Invoice). is_purchase i.direction) invoices)) db
