-- ===== src/Lib.antt =====
-- Business Execution Ledger: a model of the ledger's core and the theorems about it.
--
-- The ledger keeps facts about contracts, invoices and payments in tables that it mostly only
-- appends to. Five of its parts are modelled.
--
-- Link is the bridge between procurement and sales contracts, src/bel/application/
-- procurement_sales_link.py with the statements of ProcurementSalesLinkRepository in
-- src/bel/infrastructure/persistence/repositories.py. An episode asserts one relationship, a
-- correction retires an episode, and an episode is current while no correction names it.
--   Link/Rows           the tables, the errors, and actions on a store
--   Link/Repository     the statements, each of them one read or one write
--   Link/Commands       ADD and the unconfirmed suggestion
--   Link/Corrections    CORRECT and REESTABLISH
--   Link/Manual         execute_*: evidence by digest, one serialized transaction
-- A command is a function from a store to a result and a store. Its arguments `rival` say what other
-- sessions commit between a check and the atomic insert after it, so an interleaving is a choice of
-- them; uuid4 and the clock are arguments as well. The other modules of Link prove:
-- OneCurrent an invariant, Keeps and CommandKeeps how commands keep one, Run that of the commands as
-- one type, Current, Outcomes, Evidence, Replacement and ManualOnce what commands return and leave.
--
-- Match is procurement matching, src/bel/application/matching.py over src/bel/domain/normalize.py and
-- src/bel/domain/matching.py. An invoice or payment gets the contract that has its counterparty and
-- its amount, by uniqueness, by chronology, by a canonical pairing of equivalent rows, or by a human.
--   Match/Text          normalize_counterparty; NFKC and whitespace are a parameter `u`
--   Match/Rows          the tables
--   Match/Candidates    eligibility, candidates and the sort keys
--   Match/Subjects      what the callers hand to the pass, and the cached capacities
--   Match/Cohorts       the snapshot of competing subjects and the canonical pairs
--   Match/Pass          _run_match_pass
--   Match/Invoices, Match/Payments    match_invoices and match_payments
--   Match/Confirm       confirm_match
-- In Match, Tidy, Accounting, Rerun, Capacity, Guard, Earliest and Confirmed hold the proofs.
-- Money is an integer of hundredths, a date its ordinal, and a row's id a natural number.
--
-- Close is the preview of a period close, src/bel/application/period_close.py over
-- src/bel/domain/accrual.py. It reverses the open accruals that purchase invoices have caught up
-- with, and says which new accruals are required; it writes nothing.
--   Close/Accrual       balances, get_projected_accrual_status and is_open_accrual
--   Close/Reversals     R001 and R006 of _compute_preview, item by item
--   Close/Requirements  R002, R003 and R007, contract by contract, with what is proved of them
--   Close/Clears        proofs about the reversals
-- `prorate` stands for the quotient of two Decimals, times a third and rounded to cents. Close reads
-- the invoices of Match.
--
-- Facts is what contract items, contracts, sales contracts and shipments have in common, and what
-- each has of its own: src/bel/application/contract_item_facts.py, contract_facts.py,
-- sales_contract_facts.py and shipment_facts.py, with their repositories. An identity anchor has a
-- chain of revisions; a revision holds every column of the fact and is current while none supersedes
-- it. The four modules repeat one pattern, so it is modelled once, over an identity `I`, the columns
-- `known` and the checks, and each store is an instance.
--   Facts/Rows          the rows, the refusals and the results
--   Facts/Fields        dicts of columns, where None is a value
--   Facts/Repository    the queries and append_revision_against_current
--   Facts/Revise        _asserted_fields and _apply_revision
--   Facts/Create        create_*_fact after the checks of the store
--   Facts/Dependents    _flag_dependents_on_correction
--   Facts/Notices       tasks that are raised once, and resolved
--   Facts/Items, Facts/Contracts, Facts/SalesContracts, Facts/Shipments    the four stores
--   Facts/Manual        execute_*: evidence by digest, one serialized transaction
-- `rival` is again what other sessions commit between the reads of a command and its write, and
-- `Commits` is what is asked of them. A create runs in one serialized transaction. Chain is the
-- invariant of the rows, History the abstract log of an anchor; Append, Refine, Walk, Command,
-- Outcome, Replay, Values, Asserted, Created, Sound, Priced, Flags, Effects and Incomplete hold the
-- proofs. A column is a number, in the alphabetical order of the names; a Decimal of a fact is an
-- integer of units of 10^-8. The walk of list_revisions, a loop with no bound in the code, has as
-- fuel the number of the anchor's rows, which is enough.
--
-- Sales is the matching of sales invoices and receipts, src/bel/application/sales_matching.py with
-- MatchCaseRepository and the two repositories of sales allocations. A human proposes candidates,
-- which opens a case, and confirms the allocations, which resolves it.
--   Sales/Rows          the rows, and the statements on cases
--   Sales/Propose       propose_sales_*_match
--   Sales/Confirm       confirm_sales_*_match, its savepoint, and add of an allocation
--   Sales/Legs          the legs of invoices and payments as instances
-- Bounded, Once and OneCase hold the proofs. The two legs are alike, so the functions take the table
-- by its type and a look-up `subjects`; `survives` is the floating-point round trip of an amount,
-- and `rival` is what other sessions commit between the checks and the writes. Sums of amounts are
-- exact, where SQLite adds floating-point numbers.
--
-- Every other function is structural recursion, so no other fuel is needed. A model stands for one
-- call; the advisory lock that the entry points take first is what lets matching be read as one step.
--
-- Not modelled: invoice preparation, cutover, and the read models, which are still to come; imports,
-- exports, the command line and the web pages, which are input and output; the schema and sessions of
-- SQLAlchemy.
pub mod Base
pub mod Link
pub mod Match
pub mod Close
pub mod Facts
pub mod Sales
