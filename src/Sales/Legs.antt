-- ===== src/Sales/Legs.antt =====
-- The two legs: SALES invoices and IN payments, and the four entry points.
use business_execution_ledge.Base.{ℕ, Bool, true, false, Option, none, some, List, ◌==◌}
use business_execution_ledge.Base.Int.{ℤ}
use business_execution_ledge.Base.Lists.{find}
use business_execution_ledge.Match.Rows.{invoice_subject, payment_subject}
use business_execution_ledge.Match.Invoices.{Invoice, InvoiceDirection, sales}
use business_execution_ledge.Match.Payments.{Payment, PaymentDirection, payment_in}
use business_execution_ledge.Sales.Rows.{SalesSubject, SalesDb, SalesResult}
use business_execution_ledge.Sales.Propose.{Propose, ProposalResult, propose_sales_match}
use business_execution_ledge.Sales.Confirm.{Confirm, ConfirmationResult, confirm_sales_match}

abbrev pub is_sales_invoice : InvoiceDirection → Bool
is_sales_invoice sales = true
is_sales_invoice _ = false

abbrev pub is_receipt : PaymentDirection → Bool
is_receipt payment_in = true
is_receipt _ = false

abbrev pub subject_of : {A : Type 0} → (A → SalesSubject) → Option A → Option SalesSubject
subject_of f none = none
subject_of f (some a) = some (f a)

unfoldable pub invoice_leg : List Invoice → ℕ → Option SalesSubject
invoice_leg invoices i =
    subject_of
      (λ (x : Invoice). record {
        id = x.id;
        is_sales = is_sales_invoice x.direction;
        amount = x.gross_amount;
      })
      (find (λ (x : Invoice). x.id == i) invoices)

unfoldable pub payment_leg : List Payment → ℕ → Option SalesSubject
payment_leg payments i =
    subject_of
      (λ (x : Payment). record { id = x.id; is_sales = is_receipt x.direction; amount = x.amount })
      (find (λ (x : Payment). x.id == i) payments)

unfoldable pub propose_sales_invoice_match :
    List Invoice
    → List ℕ
    → (SalesDb → SalesDb)
    → Propose
    → SalesDb
    → SalesResult ProposalResult × SalesDb
propose_sales_invoice_match invoices sales_contracts rival c db =
    propose_sales_match (invoice_leg invoices) sales_contracts rival
      (record c { subject_type = invoice_subject }) db

unfoldable pub propose_sales_payment_match :
    List Payment
    → List ℕ
    → (SalesDb → SalesDb)
    → Propose
    → SalesDb
    → SalesResult ProposalResult × SalesDb
propose_sales_payment_match payments sales_contracts rival c db =
    propose_sales_match (payment_leg payments) sales_contracts rival
      (record c { subject_type = payment_subject }) db

unfoldable pub confirm_sales_invoice_match :
    (ℤ → Bool)
    → List Invoice
    → List ℕ
    → (SalesDb → SalesDb)
    → Confirm
    → SalesDb
    → SalesResult ConfirmationResult × SalesDb
confirm_sales_invoice_match survives invoices sales_contracts rival c db =
    confirm_sales_match survives (invoice_leg invoices) sales_contracts rival
      (record c { subject_type = invoice_subject }) db

unfoldable pub confirm_sales_payment_match :
    (ℤ → Bool)
    → List Payment
    → List ℕ
    → (SalesDb → SalesDb)
    → Confirm
    → SalesDb
    → SalesResult ConfirmationResult × SalesDb
confirm_sales_payment_match survives payments sales_contracts rival c db =
    confirm_sales_match survives (payment_leg payments) sales_contracts rival
      (record c { subject_type = payment_subject }) db
