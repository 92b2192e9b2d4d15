-- ===== src/Orchestration/Leases/Calls.antt =====
-- What one call of `lease_next_task` or `mark_task_succeeded` does (agi_platform/orchestration.py).
use mathlib.Core.List.{Memᴰ}
use agi_platform.Prelude.{
  ℕ, String, ◌==◌, List, [], ◌∷◌, true, false, none, some, ◌≡◌, ◌≢◌, ap, ◌∙◌, ◌⊎◌, inl, inr, arith,
  eq_iff, Bool-cases, Option-cases, leb,
}
use agi_platform.Database.{Table, select}
use agi_platform.Database.Select.{mem_of_select}
use agi_platform.Orchestration.Tables.{WorkflowTaskRow, task_key}
use agi_platform.Orchestration.Leases.{
  is_leasable, earliest, leased, may_succeed, lease_next_task, mark_row, mark_task_succeeded,
}

earliest-mem : (rs : List WorkflowTaskRow) (r : WorkflowTaskRow) → earliest rs ≡ some r → Memᴰ r rs
unfolding earliest
earliest-mem [] r h = cc
earliest-mem (s ∷ rs) r h = elim (Option-cases (earliest rs)) [
  | inl none_left ↦ Memᴰ.head (let e : r ≡ s = ground arith in e)
  | inr (q, found) ↦ elim (Bool-cases (leb s.created_at q.created_at)) [
    | inl sooner ↦ Memᴰ.head (let e : r ≡ s = ground arith in e)
    | inr later ↦ Memᴰ.tail (earliest-mem rs r (let e : q ≡ r = ground arith in found ∙ ap some e))
  ]
]

-- A row that may be leased is neither running nor done.
pub not_leasable :
    (tenant workflow status : String) (r : WorkflowTaskRow)
    → is_leasable tenant workflow r ≡ true
    → r.status ≡ status
    → (status == "PENDING") ≡ false
    → (status == "TIMED_OUT") ≡ false
    → ⊥
unfolding is_leasable
not_leasable tenant workflow status r h e p q = ground arith

abbrev pub done_at : WorkflowTaskRow → ℕ → WorkflowTaskRow
done_at r now = record r { status = "SUCCEEDED"; updated_at = now }

-- A row may succeed for its owner only, and once.
may_succeed_owner :
    (tenant worker : String) (r : WorkflowTaskRow)
    → may_succeed tenant worker r ≡ true
    → (r.lease_owner ≡ some worker) × (r.status ≢ "SUCCEEDED")
unfolding may_succeed
may_succeed_owner tenant worker r h = elim (Option-cases r.lease_owner) [
  | inl nobody ↦ absurd (ground arith)
  | inr (w, owner) ↦ (
    owner ∙ ap some (ground (arith, eq_iff w worker)),
    λ e. ground (arith, eq_iff r.status "SUCCEEDED"),
  )
]

module _ (tasks : Table WorkflowTaskRow task_key) where
  -- What a lease gives, if anything: a row that was leasable, now running for the worker.
  pub lease-cases :
      (tenant : String) (t : tasks.Rows) (workflow worker : String) (now seconds : ℕ)
      → (lease_next_task tasks tenant t workflow worker now seconds ≡ (t, none))
        ⊎ ((s : WorkflowTaskRow) × (tasks.find t s.id ≡ some s)
            × (is_leasable tenant workflow s ≡ true)
            × (lease_next_task tasks tenant t workflow worker now seconds
                ≡ (tasks.put t (leased s worker now seconds), some s.id)))
  unfolding lease_next_task
  lease-cases tenant t workflow worker now seconds =
      elim (Option-cases (earliest (select (is_leasable tenant workflow) (tasks.rows t)))) [
        | inl nothing ↦ inl (rw nothing)
        | inr (s, found) ↦
            let (m, meets) =
              mem_of_select (is_leasable tenant workflow) (tasks.rows t) s
                (earliest-mem _ s found) in
            inr (s, tasks.find_of_mem t s m, meets, rw found)
      ]

  -- A task is marked for its owner, if it was not marked before, or nothing happens.
  pub mark-cases :
      (tenant : String) (t : tasks.Rows) (task worker : String) (now : ℕ)
      → (mark_task_succeeded tasks tenant t task worker now ≡ (t, false))
        ⊎ ((s : WorkflowTaskRow) × (tasks.find t task ≡ some s)
            × (s.lease_owner ≡ some worker)
            × (s.status ≢ "SUCCEEDED")
            × (mark_task_succeeded tasks tenant t task worker now
                ≡ (tasks.put t (done_at s now), true)))
  unfolding mark_task_succeeded
  mark-cases tenant t task worker now = elim (Option-cases (tasks.find t task)) [
    | inl missing ↦ inl (rw missing)
    | inr (s, found) ↦ elim (Bool-cases (may_succeed tenant worker s)) [
      | inl may ↦
          let (owner, fresh) = may_succeed_owner tenant worker s may in
          inr (s, found, owner, fresh, rw (found, mark_row, may))
      | inr may_not ↦ inl (rw (found, mark_row, may_not))
    ]
  ]
