-- ===== src/Orchestration/Leases.antt =====
-- Leases of workflow tasks: `lease_next_task`, `mark_task_succeeded` and `recover_expired_leases` of
-- `WorkflowStateStore` (agi_platform/orchestration.py). Each works in one transaction on the table of
-- tasks, in one step here; a lease is also cut into its read and its write, for what happens between.
-- `now` is what `now_ts()` gives in the call.
pub mod Calls
pub mod Exclusive
pub mod Races
pub mod Recovered
pub mod Recovery
use agi_platform.Prelude.{
  ℕ, ◌+◌, String, ◌==◌, List, [], ◌∷◌, Bool, true, false, not, ◌&&◌, ◌||◌, Option, none, some, leb,
  ltb, length, if◌then◌else◌,
}
use agi_platform.Database.{Table, select}
use agi_platform.Orchestration.Tables.{WorkflowTaskRow, task_key}

-- The condition of the query in `lease_next_task`.
unfoldable pub is_leasable : String → String → WorkflowTaskRow → Bool
is_leasable tenant workflow r =
    r.tenant_id == tenant
    && (r.workflow_id == workflow && (r.status == "PENDING" || r.status == "TIMED_OUT"))

-- `order_by(created_at)` and `first()`; rows of one time stand in any order.
unfoldable pub earliest : List WorkflowTaskRow → Option WorkflowTaskRow
earliest [] = none
earliest (r ∷ rs) = elim (earliest rs) [
  | none ↦ some r
  | some s ↦ if leb r.created_at s.created_at then some r else some s
]

unfoldable pub leased : WorkflowTaskRow → String → ℕ → ℕ → WorkflowTaskRow
leased r worker now seconds = record r {
  status = "RUNNING";
  lease_owner = some worker;
  lease_expires_at = some (now + seconds);
  attempts = r.attempts + 1;
  updated_at = now;
}

abbrev pub is_owner : Option String → String → Bool
is_owner none worker = false
is_owner (some owner) worker = owner == worker

-- Why `mark_task_succeeded` refuses a row.
unfoldable pub may_succeed : String → String → WorkflowTaskRow → Bool
may_succeed tenant worker r =
    r.tenant_id == tenant && (is_owner r.lease_owner worker && not (r.status == "SUCCEEDED"))

abbrev pub before : Option ℕ → ℕ → Bool
before none now = false
before (some t) now = ltb t now

-- The condition of the query in `recover_expired_leases`; no time is before a missing one.
unfoldable pub is_expired : String → ℕ → WorkflowTaskRow → Bool
is_expired tenant now r =
    r.tenant_id == tenant && (r.status == "RUNNING" && before r.lease_expires_at now)

unfoldable pub released : WorkflowTaskRow → WorkflowTaskRow
released r = record r {
  status = if leb r.max_attempts r.attempts then "TIMED_OUT" else "PENDING";
  lease_owner = none;
  lease_expires_at = none;
}

module _ (tasks : Table WorkflowTaskRow task_key) where
  -- The loop over the expired tasks.
  unfoldable pub release_all : tasks.Rows → List WorkflowTaskRow → tasks.Rows
  release_all t [] = t
  release_all t (r ∷ rs) = release_all (tasks.put t (released r)) rs

module _ (tasks : Table WorkflowTaskRow task_key) (tenant : String) where
  -- What `lease_next_task` reads first: the row for the next lease, if any.
  unfoldable pub next_task : tasks.Rows → String → Option WorkflowTaskRow
  next_task t workflow = earliest (select (is_leasable tenant workflow) (tasks.rows t))

  -- What `lease_next_task` writes when it commits: the lease of the row that it has read, if any. The rows
  -- may have changed since, which nothing notices: the row is neither locked nor compared.
  unfoldable pub take_lease :
      tasks.Rows → Option WorkflowTaskRow → String → ℕ → ℕ → tasks.Rows × Option String
  unfolding leased
  take_lease t none worker now seconds = (t, none)
  take_lease t (some r) worker now seconds = (tasks.put t (leased r worker now seconds), some r.id)

  -- `lease_next_task`, where nobody writes between its read and its commit
  unfoldable pub lease_next_task : tasks.Rows → String → String → ℕ → ℕ → tasks.Rows × Option String
  unfolding take_lease next_task
  lease_next_task t workflow worker now seconds =
      take_lease t (next_task t workflow) worker now seconds

  mark_row : tasks.Rows → Option WorkflowTaskRow → String → ℕ → tasks.Rows × Bool
  mark_row t none worker now = (t, false)
  mark_row t (some r) worker now =
      if may_succeed tenant worker r
      then (tasks.put t (record r { status = "SUCCEEDED"; updated_at = now }), true)
      else (t, false)

  unfoldable pub mark_task_succeeded : tasks.Rows → String → String → ℕ → tasks.Rows × Bool
  unfolding mark_row
  mark_task_succeeded t task worker now = mark_row t (tasks.find t task) worker now

  unfoldable pub recover_expired_leases : tasks.Rows → ℕ → tasks.Rows × ℕ
  recover_expired_leases t now =
      let expired = select (is_expired tenant now) (tasks.rows t) in
      (release_all tasks t expired, length expired)
