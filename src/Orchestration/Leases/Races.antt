-- ===== src/Orchestration/Leases/Races.antt =====
-- Two leases at the same time: `lease_next_task` reads a row and writes it later, without a lock
-- (agi_platform/orchestration.py).
use agi_platform.Prelude.{ℕ, ◌+◌, String, false, some, ◌≡◌, ◌≢◌, refl, arith, eq_iff, eq_refl}
use agi_platform.Database.{Table}
use agi_platform.Orchestration.Tables.{WorkflowTaskRow, task_key}
use agi_platform.Orchestration.Leases.{
  leased, may_succeed, next_task, take_lease, mark_row, mark_task_succeeded,
}

module _ (tasks : Table WorkflowTaskRow task_key) where
  not_owner :
      (tenant w w' : String) (r : WorkflowTaskRow) (now seconds : ℕ)
      → w ≢ w'
      → may_succeed tenant w (leased r w' now seconds) ≡ false
  unfolding may_succeed leased
  not_owner tenant w w' r now seconds other = ground (arith, eq_iff w' w)

  -- If two workers both read before either writes, both are given the same task. It is then the second
  -- writer's, with one attempt counted for the two leases, and the first worker, if it is another one,
  -- cannot complete it.
  take_lease_races :
      (tenant workflow w w' : String) (t : tasks.Rows) (r : WorkflowTaskRow)
      (now now' seconds seconds' later : ℕ)
      → next_task tasks tenant t workflow ≡ some r
      → w ≢ w'
      → let read = next_task tasks tenant t workflow in
        let (t', given) = take_lease tasks tenant t read w now seconds in
        let (t'', given') = take_lease tasks tenant t' read w' now' seconds' in
        (given ≡ some r.id)
        × (given' ≡ some r.id)
        × ((r' : WorkflowTaskRow) × (tasks.find t'' r.id ≡ some r')
            × (r'.lease_owner ≡ some w')
            × (r'.attempts ≡ r.attempts + 1))
        × (mark_task_succeeded tasks tenant t'' r.id w later ≡ (t'', false))
  unfolding take_lease mark_task_succeeded
  take_lease_races tenant workflow w w' t r now now' seconds seconds' later reads other =
      let t' = tasks.put t (leased r w now seconds) in
      let t'' = tasks.put t' (leased r w' now' seconds') in
      let found : tasks.find t'' r.id ≡ some (leased r w' now' seconds') =
        rw tasks.find-put (unfold leased in rw eq_refl refl) in
      rw reads (
        refl,
        refl,
        (leased r w' now' seconds', found, unfold leased in refl, unfold leased in refl),
        rw (found, mark_row, not_owner tenant w w' r now' seconds' other) refl,
      )
