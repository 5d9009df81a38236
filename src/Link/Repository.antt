-- ===== src/Link/Repository.antt =====
-- `ProcurementSalesLinkRepository` and the queries of `ExceptionRepository`: each method is one
-- statement, so it reads or writes the store at one moment.
use business_execution_ledge.Base.{
  ℕ, Bool, true, false, ◌&&◌, ◌||◌, not, Option, List, [], ◌∷◌, ◌++◌, ltb, ◌==◌, if◌then◌else◌,
}
use business_execution_ledge.Base.Lists.{any, filter, find}
use business_execution_ledge.Link.Rows.{Link, Correction, Store, Task, Detail}

abbrev pub superseding : ℕ → Correction → Bool
superseding i c = c.superseded_link_id == i

abbrev pub is_corrected : List Correction → ℕ → Bool
is_corrected cs i = any (superseding i) cs

abbrev pub has_key : ℕ → ℕ → Link → Bool
has_key p q l = l.procurement_contract_id == p && l.sales_contract_id == q

-- The rows of a business key that no correction names.
abbrev pub current_of : List Correction → ℕ → ℕ → Link → Bool
current_of cs p q l = has_key p q l && not (is_corrected cs l.id)

unfoldable pub get : Store → ℕ → Option Link
get s i = find (λ l. l.id == i) s.links

unfoldable pub is_current : Store → ℕ → Bool
is_current s i = not (is_corrected s.corrections i)

unfoldable pub get_current_link : Store → ℕ → ℕ → Option Link
get_current_link s p q = find (current_of s.corrections p q) s.links

-- `ORDER BY created_at, id`.
abbrev earlier : Link → Link → Bool
earlier l m = ltb l.created_at m.created_at || (l.created_at == m.created_at && ltb l.id m.id)

abbrev pub insert_ordered : Link → List Link → List Link
insert_ordered l [] = l ∷ []
insert_ordered l (m ∷ ms) = if earlier m l then m ∷ insert_ordered l ms else l ∷ m ∷ ms

abbrev pub order_by_created : List Link → List Link
order_by_created [] = []
order_by_created (l ∷ ls) = insert_ordered l (order_by_created ls)

unfoldable pub list_episodes : Store → ℕ → ℕ → List Link
list_episodes s p q = order_by_created (filter (has_key p q) s.links)

unfoldable pub list_current_links_for_procurement_contract : Store → ℕ → List Link
list_current_links_for_procurement_contract s p =
    order_by_created (
      filter (λ l. l.procurement_contract_id == p && not (is_corrected s.corrections l.id)) s.links)

unfoldable pub list_current_links_for_sales_contract : Store → ℕ → List Link
list_current_links_for_sales_contract s q =
    order_by_created
      (filter (λ l. l.sales_contract_id == q && not (is_corrected s.corrections l.id)) s.links)

-- `INSERT ... SELECT ... WHERE NOT EXISTS (a current row of the key)`.
unfoldable pub insert_episode_if_no_current : Link → Store → Bool × Store
insert_episode_if_no_current link s =
    if any (current_of s.corrections link.procurement_contract_id link.sales_contract_id) s.links
    then (false, s)
    else (true, record s { links = s.links ++ link ∷ [] })

unfoldable pub get_correction_for_superseded : Store → ℕ → Option Correction
get_correction_for_superseded s i = find (superseding i) s.corrections

-- `INSERT ... SELECT ... WHERE NOT EXISTS (a correction of the same link)`.
unfoldable pub add_correction_if_uncorrected : Correction → Store → Bool × Store
add_correction_if_uncorrected c s =
    if is_corrected s.corrections c.superseded_link_id
    then (false, s)
    else (true, record s { corrections = s.corrections ++ c ∷ [] })

-- `ExceptionRepository.add`, and a look through `list_open`.
abbrev pub add_task : Detail → ℕ → Store → Store
add_task d now s = record s {
  tasks = s.tasks ++ record { detail = d; is_open = true; created_at = now } ∷ [];
}

abbrev pub has_open_task : (Detail → Bool) → Store → Bool
has_open_task p s = any (λ (t : Task). t.is_open && p t.detail) s.tasks
