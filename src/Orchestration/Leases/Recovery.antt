-- ===== src/Orchestration/Leases/Recovery.antt =====
-- What `recover_expired_leases` does to each row, and a task that has used up its attempts
-- (agi_platform/orchestration.py).
use mathlib.Core.List.{Memᴰ}
use agi_platform.Prelude.{
  ℕ, ◌≤◌, ◌<◌, String, ◌==◌, List, [], ◌∷◌, Bool, true, false, Option, none, some, ◌≡◌, ◌≢◌, refl,
  sym, ◌∙◌, inl, inr, arith, eq_iff, eq_refl, Bool-cases, Option-cases, All, subst,
}
use agi_platform.Database.{Table, select, Distinct}
use agi_platform.Database.Select.{All-of_mem, mem_of_select, mem-select, Distinct-select}
use agi_platform.Orchestration.Tables.{WorkflowTaskRow, task_key}
use agi_platform.Orchestration.Leases.Recovered.{Recovered, recovered, recovered-Recovered}
use agi_platform.Orchestration.Leases.{
  is_leasable, is_expired, released, leased, release_all, recover_expired_leases, earliest,
  take_lease, lease_next_task,
}

released_not_expired :
    (tenant : String) (now : ℕ) (r : WorkflowTaskRow) → is_expired tenant now (released r) ≡ false
unfolding is_expired released
released_not_expired tenant now r = ground arith

All-swap :
    (k : String) (rs : List WorkflowTaskRow)
    → All (λ (s : WorkflowTaskRow). (k == s.id) ≡ false) rs
    → All (λ (s : WorkflowTaskRow). (s.id == k) ≡ false) rs
All-swap k [] a = tt
All-swap k (s ∷ rs) a = (ground (arith, eq_iff k s.id, eq_iff s.id k), All-swap k rs a.1)

module _ (tasks : Table WorkflowTaskRow task_key) where
  release_other :
      (t : tasks.Rows) (rs : List WorkflowTaskRow) (k : String)
      → All (λ (r : WorkflowTaskRow). (r.id == k) ≡ false) rs
      → tasks.find (release_all tasks t rs) k ≡ tasks.find t k
  unfolding release_all released
  release_other t [] k h = refl
  release_other t (r ∷ rs) k h =
      release_other (tasks.put t (released r)) rs k h.1 ∙ rw (tasks.find-put, h.0) refl

  release_mem :
      (t : tasks.Rows) (rs : List WorkflowTaskRow) (r : WorkflowTaskRow)
      → Distinct task_key rs
      → Memᴰ r rs
      → tasks.find (release_all tasks t rs) r.id ≡ some (released r)
  unfolding release_all
  release_mem t [] r d m = elim m [ ]
  release_mem t (s ∷ rs) r d (Memᴰ.head e) = rw e (
      release_other (tasks.put t (released s)) rs s.id (All-swap s.id rs d.0)
      ∙ rw tasks.find-put (unfold released in rw eq_refl refl))
  release_mem t (s ∷ rs) r d (Memᴰ.tail m) = release_mem (tasks.put t (released s)) rs r d.1 m

  -- Rows of a table with another key than `k`, unless one is found under it.
  others :
      (t : tasks.Rows) (k : String) (p : WorkflowTaskRow → Bool)
      → ((s : WorkflowTaskRow) → tasks.find t k ≡ some s → p s ≡ false)
      → All (λ (s : WorkflowTaskRow). (s.id == k) ≡ false) (select p (tasks.rows t))
  others t k p fails = All-of_mem _ (select p (tasks.rows t)) λ s m.
      let (at, meets) = mem_of_select p (tasks.rows t) s m in
      elim (Bool-cases (s.id == k)) [
        | inl same ↦
            let found : tasks.find t k ≡ some s =
              subst (λ x. tasks.find t x ≡ some s) ((eq_iff s.id k).0 same)
                (tasks.find_of_mem t s at) in
            cc (fails s found, meets)
        | inr other ↦ other
      ]

  find_recovered :
      (tenant : String) (t : tasks.Rows) (now : ℕ) (k : String)
      → tasks.find (recover_expired_leases tasks tenant t now).0 k
        ≡ recovered tenant now (tasks.find t k)
  unfolding recover_expired_leases
  find_recovered tenant t now k = elim (Option-cases (tasks.find t k)) [
    | inl missing ↦
        release_other t _ k (others t k (is_expired tenant now) (λ s found. cc (missing, found)))
        ∙ rw missing refl
    | inr (r, found) ↦ elim (Bool-cases (is_expired tenant now r)) [
      | inl expired ↦
          let own : r.id ≡ k = tasks.key_of_find t k r found in
          let at =
            mem-select (is_expired tenant now) (tasks.rows t) r (tasks.mem_of_find t k r found)
              expired in
          rw (found, expired)
            (subst
              (λ x.
                tasks.find (release_all tasks t (select (is_expired tenant now) (tasks.rows t))) x
                ≡ some (released r))
              own
              (release_mem t _ r
                (Distinct-select task_key (is_expired tenant now) (tasks.rows t) (tasks.distinct t))
                at))
      | inr lasting ↦
          release_other t _ k (
            others t k (is_expired tenant now)
              (λ s again. let same : r ≡ s = ground arith in rw (← same) lasting))
          ∙ rw (found, lasting) refl
    ]
  ]

  recovered_not_expired :
      (tenant : String) (now : ℕ) (o : Option WorkflowTaskRow) (r : WorkflowTaskRow)
      → recovered tenant now o ≡ some r
      → is_expired tenant now r ≡ false
  recovered_not_expired tenant now none r h = cc
  recovered_not_expired tenant now (some s) r h = elim (Bool-cases (is_expired tenant now s)) [
    | inl expired ↦
        let one : released s ≡ r = ground arith in rw (← one) (released_not_expired tenant now s)
    | inr lasting ↦ let one : s ≡ r = ground arith in rw (← one) lasting
  ]

  select_none :
      (p : WorkflowTaskRow → Bool) (rs : List WorkflowTaskRow)
      → All (λ r. p r ≡ false) rs
      → select p rs ≡ []
  unfolding select
  select_none p [] a = refl
  select_none p (r ∷ rs) a = rw a.0 (select_none p rs a.1)

  -- A recovery adds and removes no row, and changes exactly the running tasks of the tenant whose lease
  -- ended before the time: each loses its lease and is "TIMED_OUT" if its attempts are used up, else
  -- "PENDING", with all its other fields as they were. A second recovery at the same time finds none.
  pub recover_expired_leases-each :
      (tenant : String) (t : tasks.Rows) (now : ℕ)
      → let t' = (recover_expired_leases tasks tenant t now).0 in
        ((k : String) → Recovered tenant now (tasks.find t k) (tasks.find t' k))
        × ((recover_expired_leases tasks tenant t' now).1 ≡ 0)
  recover_expired_leases-each tenant t now =
      let t' = (recover_expired_leases tasks tenant t now).0 in
      (
        λ k.
            subst (Recovered tenant now (tasks.find t k)) (sym (find_recovered tenant t now k))
              (recovered-Recovered tenant now (tasks.find t k)),
        unfold recover_expired_leases in
            rw
              (select_none (is_expired tenant now) (tasks.rows t') (
                All-of_mem _ (tasks.rows t') λ r m.
                  recovered_not_expired tenant now (tasks.find t r.id) r
                    (sym (find_recovered tenant t now r.id) ∙ tasks.find_of_mem t' r m)))
              refl,
      )

  earliest_some : (rs : List WorkflowTaskRow) (r : WorkflowTaskRow) → Memᴰ r rs → earliest rs ≢ none
  unfolding earliest
  earliest_some [] r m e = elim m [ ]
  earliest_some (s ∷ rs) r m e = ground arith

  lease_some :
      (tenant : String) (t : tasks.Rows) (workflow worker : String) (now seconds : ℕ)
      (r : WorkflowTaskRow)
      → tasks.find t r.id ≡ some r
      → is_leasable tenant workflow r ≡ true
      → (lease_next_task tasks tenant t workflow worker now seconds).1 ≢ none
  unfolding lease_next_task
  lease_some tenant t workflow worker now seconds r found meets e =
      elim (Option-cases (earliest (select (is_leasable tenant workflow) (tasks.rows t)))) [
        | inl nothing ↦
            earliest_some _ r
              (mem-select (is_leasable tenant workflow) (tasks.rows t) r
                (tasks.mem_of_find t r.id r found) meets)
              nothing
        | inr (s, first) ↦ cc (rw (first, take_lease) at e)
      ]

  exhausted :
      (tenant : String) (now : ℕ) (r : WorkflowTaskRow)
      → is_expired tenant now r ≡ true
      → r.max_attempts ≤ r.attempts
      → ((released r).status ≡ "TIMED_OUT") × (is_leasable tenant r.workflow_id (released r) ≡ true)
  unfolding is_expired released is_leasable
  exhausted tenant now r h used = (
    ground arith,
    ground (
      arith,
      eq_refl r.workflow_id,
      eq_iff r.tenant_id tenant,
      eq_iff (released r).status "TIMED_OUT",
    ),
  )

  -- A running task of the tenant whose lease expired and whose attempts are used up is timed out by
  -- the recovery, but it stays leasable in its workflow, with no more attempts taken off: there
  -- `lease_next_task` still gives a task to any worker, and a lease of this one is an attempt above
  -- `max_attempts`.
  pub exhausted_stays_leasable :
      (tenant : String) (t : tasks.Rows) (k : String) (r : WorkflowTaskRow) (worker : String)
      (now seconds : ℕ)
      → tasks.find t k ≡ some r
      → is_expired tenant now r ≡ true
      → r.max_attempts ≤ r.attempts
      → let t' = (recover_expired_leases tasks tenant t now).0 in
        (r' : WorkflowTaskRow) × (tasks.find t' k ≡ some r')
        × (r'.status ≡ "TIMED_OUT")
        × (is_leasable tenant r.workflow_id r' ≡ true)
        × ((lease_next_task tasks tenant t' r.workflow_id worker now seconds).1 ≢ none)
        × (r'.max_attempts < (leased r' worker now seconds).attempts)
  exhausted_stays_leasable tenant t k r worker now seconds found expired used =
      let t' = (recover_expired_leases tasks tenant t now).0 in
      let (timed_out, leasable) = exhausted tenant now r expired used in
      let at : tasks.find t' k ≡ some (released r) =
        find_recovered tenant t now k ∙ rw (found, expired) refl in
      let own : (released r).id ≡ k = unfold released in tasks.key_of_find t k r found in
      (
        released r,
        at,
        timed_out,
        leasable,
        lease_some tenant t' r.workflow_id worker now seconds (released r)
            (subst (λ x. tasks.find t' x ≡ some (released r)) (sym own) at) leasable,
        unfold released leased in omega arith,
      )
