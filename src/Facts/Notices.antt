-- ===== src/Facts/Notices.antt =====
-- The tasks that the create commands of sales contracts and shipments raise, each once for the
-- evidence it is about, and how a task is resolved.
use business_execution_ledge.Base.{ℕ, Bool, false, ◌&&◌, map, ◌==◌, if◌then◌else◌}
use business_execution_ledge.Base.Lists.{any}
use business_execution_ledge.Facts.Rows.{
  Store, Task, Detail, identity_incomplete, identity_conflict, customer_unresolved,
}
use business_execution_ledge.Facts.Repository.{add_task}

-- The details that the look-ups through `list_open` compare.
abbrev pub is_incomplete_for : ℕ → Detail → Bool
is_incomplete_for f (identity_incomplete g) = g == f
is_incomplete_for f _ = false

abbrev pub is_conflict_for : ℕ → ℕ → Detail → Bool
is_conflict_for a f (identity_conflict b g) = b == a && g == f
is_conflict_for a f _ = false

abbrev pub is_unresolved_for : ℕ → Detail → Bool
is_unresolved_for a (customer_unresolved b) = b == a
is_unresolved_for a _ = false

abbrev pub is_open_task : (Detail → Bool) → Task → Bool
is_open_task p t = t.is_open && p t.detail

-- `ExceptionRepository.update_status` to RESOLVED.
abbrev pub resolved : (Detail → Bool) → Task → Task
resolved p t = if is_open_task p t then record t { is_open = false } else t

module _ {I : Type 0} where
  unfoldable pub raise_once : (Detail → Bool) → Detail → ℕ → Store I → Store I
  raise_once p d now s = if any (is_open_task p) s.tasks then s else add_task d now s

  unfoldable pub resolve_open : (Detail → Bool) → Store I → Store I
  resolve_open p s = record s { tasks = map (resolved p) s.tasks }
