-- ===== src/Orchestration/Leases/Exclusive.antt =====
-- Leases and completions one after another: each call of `lease_next_task` and `mark_task_succeeded` is
-- one step, and nobody writes between its read and its write (agi_platform/orchestration.py).
use agi_platform.Prelude.{
  ℕ, String, ◌==◌, List, [], ◌∷◌, ◌++◌, false, Option, none, some, if◌then◌else◌, ◌≡◌, ◌≢◌, refl,
  ap, ◌∙◌, ◌⊎◌, inl, inr, arith, eq_iff, eq_refl, Bool-cases,
}
use agi_platform.Database.{Table, select}
use agi_platform.Database.Select.{select-append}
use agi_platform.Orchestration.Tables.{WorkflowTaskRow, task_key}
use agi_platform.Orchestration.Leases.{leased, lease_next_task, mark_task_succeeded}
use agi_platform.Orchestration.Leases.Calls.{not_leasable, done_at, lease-cases, mark-cases}

pub data Op : Type 0 where
  lease : String → String → String → ℕ → ℕ → Op
  succeed : String → String → String → ℕ → Op

-- What the calls did: a task was given to a worker, or a worker completed it.
pub data Entry : Type 0 where
  given : String → String → Entry
  completed : String → String → Entry

abbrev given_entries : Option String → String → List Entry
given_entries none worker = []
given_entries (some id) worker = given id worker ∷ []

abbrev pub task_of : Entry → String
task_of (given id worker) = id
task_of (completed id worker) = id

-- The entries about one task.
abbrev pub about : String → List Entry → List Entry
about id = select (λ e. task_of e == id)

module _ (tasks : Table WorkflowTaskRow task_key) where
  unfoldable pub step : tasks.Rows → Op → tasks.Rows × List Entry
  step t (lease tenant workflow worker now seconds) =
      let (t', id) = lease_next_task tasks tenant t workflow worker now seconds in
      (t', given_entries id worker)
  step t (succeed tenant task worker now) =
      let (t', done) = mark_task_succeeded tasks tenant t task worker now in
      (t', if done then completed task worker ∷ [] else [])

  unfoldable pub log : tasks.Rows → List Op → List Entry
  log t [] = []
  log t (op ∷ ops) = let (t', entries) = step t op in entries ++ log t' ops

  -- The task stands at the worker's.
  record Held (t : tasks.Rows) (id worker : String) : Type 0 where
    row : WorkflowTaskRow
    found : tasks.find t id ≡ some row
    running : row.status ≡ "RUNNING"
    owned : row.lease_owner ≡ some worker

  record IsDone (t : tasks.Rows) (id : String) : Type 0 where
    row : WorkflowTaskRow
    found : tasks.find t id ≡ some row
    succeeded : row.status ≡ "SUCCEEDED"

  -- A lease goes past a row whose status is not one of the two.
  lease_past :
      (t : tasks.Rows) (id status : String) (r : WorkflowTaskRow)
      → tasks.find t id ≡ some r
      → r.status ≡ status
      → (status == "PENDING") ≡ false
      → (status == "TIMED_OUT") ≡ false
      → (tenant workflow worker : String) (now seconds : ℕ)
      → let (t', entries) = step t (lease tenant workflow worker now seconds) in
        (tasks.find t' id ≡ some r) × (about id entries ≡ [])
  unfolding step select
  lease_past t id status r found e p q tenant workflow worker now seconds =
      elim (lease-cases tasks tenant t workflow worker now seconds) [
        | inl nothing ↦ rw nothing (found, refl)
        | inr (s, at_s, leasable, call) ↦ elim (Bool-cases (s.id == id)) [
          | inl same ↦
              let here : s.id ≡ id = (eq_iff s.id id).0 same in
              let one : s ≡ r = ground arith in
              absurd (not_leasable tenant workflow status s leasable (rw one e) p q)
          | inr other ↦ rw (call, other, tasks.find-put) (unfold leased in rw other found, refl)
        ]
      ]

  -- What a completion does to a row: nothing, or it is the one marked, for its owner.
  mark_past :
      (t : tasks.Rows) (id : String) (r : WorkflowTaskRow)
      → tasks.find t id ≡ some r
      → (tenant task worker : String) (now : ℕ)
      → let (t', entries) = step t (succeed tenant task worker now) in
        ((tasks.find t' id ≡ some r) × (about id entries ≡ []))
        ⊎ ((r.lease_owner ≡ some worker)
            × (r.status ≢ "SUCCEEDED")
            × (tasks.find t' id ≡ some (done_at r now))
            × (about id entries ≡ completed id worker ∷ []))
  unfolding step select
  mark_past t id r found tenant task worker now = elim (mark-cases tasks tenant t task worker now) [
    | inl nothing ↦ rw nothing (inl (found, refl))
    | inr (s, at_s, owner, fresh, call) ↦ rw call (elim (Bool-cases (task == id)) [
      | inl same ↦
          let here : task ≡ id = (eq_iff task id).0 same in
          let one : s ≡ r = ground arith in
          let own : r.id ≡ id = tasks.key_of_find t id r found in
          inr (
            rw (← one) owner,
            rw (← one) fresh,
            rw (one, tasks.find-put, own, eq_refl) refl,
            rw (here, eq_refl) refl,
          )
      | inr other ↦
          let own : s.id ≡ task = tasks.key_of_find t task s at_s in
          inl (rw (tasks.find-put, own, other) found, rw other refl)
    ])
  ]

  Held-step :
      (t : tasks.Rows) (id w : String) (op : Op)
      → Held t id w
      → (Held (step t op).0 id w × (about id (step t op).1 ≡ []))
        ⊎ (IsDone (step t op).0 id × (about id (step t op).1 ≡ completed id w ∷ []))
  Held-step t id w (lease tenant workflow worker now seconds) h =
      let (found, silent) =
        lease_past t id "RUNNING" h.row h.found h.running refl refl tenant workflow worker now
          seconds in
      inl (record { row = h.row; found = found; running = h.running; owned = h.owned }, silent)
  Held-step t id w (succeed tenant task worker now) h =
      elim (mark_past t id h.row h.found tenant task worker now) [
        | inl (found, silent) ↦
            inl
              (record { row = h.row; found = found; running = h.running; owned = h.owned }, silent)
        | inr (owner, fresh, found, told) ↦
            let own : worker ≡ w = cc (owner, h.owned) in
            inr (
              record { row = done_at h.row now; found = found; succeeded = refl },
              told ∙ ap (λ x. completed id x ∷ []) own,
            )
      ]

  IsDone-step :
      (t : tasks.Rows) (id : String) (op : Op)
      → IsDone t id
      → IsDone (step t op).0 id × (about id (step t op).1 ≡ [])
  IsDone-step t id (lease tenant workflow worker now seconds) h =
      let (found, silent) =
        lease_past t id "SUCCEEDED" h.row h.found h.succeeded refl refl tenant workflow worker now
          seconds in
      (record { row = h.row; found = found; succeeded = h.succeeded }, silent)
  IsDone-step t id (succeed tenant task worker now) h =
      elim (mark_past t id h.row h.found tenant task worker now) [
        | inl (found, silent) ↦
            (record { row = h.row; found = found; succeeded = h.succeeded }, silent)
        | inr (owner, fresh, found, told) ↦ absurd (fresh h.succeeded)
      ]

  done_log :
      (t : tasks.Rows) (id : String) (ops : List Op) → IsDone t id → about id (log t ops) ≡ []
  unfolding log
  done_log t id [] h = unfold select in refl
  done_log t id (op ∷ ops) h =
      let (still, silent) = IsDone-step t id op h in
      rw (select-append, silent, done_log (step t op).0 id ops still)

  Held-log :
      (t : tasks.Rows) (id w : String) (ops : List Op)
      → Held t id w
      → (about id (log t ops) ≡ []) ⊎ (about id (log t ops) ≡ completed id w ∷ [])
  unfolding log
  Held-log t id w [] h = inl (unfold select in refl)
  Held-log t id w (op ∷ ops) h = elim (Held-step t id w op h) [
    | inl (still, silent) ↦ rw (select-append, silent) (Held-log (step t op).0 id w ops still)
    | inr (done, told) ↦ inr (rw (select-append, told, done_log (step t op).0 id ops done))
  ]

  -- Where the transactions of the calls run one after another: after a lease of a task, whatever leases
  -- and completions of whatever workers and tenants follow, as long as no leases are recovered, the
  -- task is leased to nobody again, and it is completed once at most, and by the worker that has the
  -- lease.
  pub lease_exclusive :
      (tenant : String) (t : tasks.Rows) (workflow w : String) (now seconds : ℕ) (t' : tasks.Rows)
      (id : String) (ops : List Op)
      → lease_next_task tasks tenant t workflow w now seconds ≡ (t', some id)
      → (about id (log t' ops) ≡ []) ⊎ (about id (log t' ops) ≡ completed id w ∷ [])
  lease_exclusive tenant t workflow w now seconds t' id ops h =
      elim (lease-cases tasks tenant t workflow w now seconds) [
        | inl nothing ↦ absurd (cc)
        | inr (s, at_s, leasable, call) ↦
            let same : s.id ≡ id = cc (h, call) in
            let after : tasks.put t (leased s w now seconds) ≡ t' = cc (h, call) in
            Held-log t' id w ops (record {
              row = leased s w now seconds;
              found = unfold leased in rw (← after, tasks.find-put, same, eq_refl) refl;
              running = unfold leased in refl;
              owned = unfold leased in refl;
            })
      ]
