-- ===== src/Worker/Steps.antt =====
-- engine/internal/worker/distributed.go: each call of the pool keeps its invariant.
use casper_prover.Prelude.{
  ℕ, suc, String, true, false, ◌||◌, not, some, [], ◌∷◌, ◌++◌, ◌≡◌, refl, inl, inr, ltb, Bool-cases,
  Option-cases, ℤ, pos, inc, leb_int, arith,
}
use casper_prover.Prelude.Assoc.{lookup, insert, delete}
use casper_prover.Prelude.Entries.{
  Known, All-insert, All-delete, All-lookup, Distinct-keys-insert, Distinct-keys-delete,
}
use casper_prover.Prelude.IntOrder.{leb_int-false}
use casper_prover.Worker.{
  Worker, Task, TaskResult, Pool, is_unavailable, inc_load, register_worker, deregister_worker,
  beat, heartbeat, drain, drain_worker,
}
use casper_prover.Worker.Tasks.{
  submit_task, assign_to, do_assign, assign_task, credit, blame, complete_with, complete_task,
  give_up, retry, after_failure, fail_task,
}
use casper_prover.Worker.Upkeep.{is_failed}
use casper_prover.Worker.Queue.{
  sort_queue-InOrder, sort_queue-AllKnown, All-remove_first, remove_first-Descending, priority_in,
  AllKnown-insert, AllKnown-insert_append, InOrder-insert,
}
use casper_prover.Worker.Invariant.{
  WorkerOk, TaskOk, WellFormed, with_workers, put_worker, put_task, charge-WellFormed,
}

pub register_worker-WellFormed :
    {p : Pool} (id addr : String) (max_load : ℤ) (now : ℕ)
    → WellFormed p
    → WellFormed (register_worker id addr max_load now p)
unfolding register_worker
register_worker-WellFormed id addr max_load now v = put_worker id _ v (ground arith, refl)

pub deregister_worker-WellFormed :
    {p : Pool} (id : String) → WellFormed p → WellFormed (deregister_worker id p).1
unfolding deregister_worker
deregister_worker-WellFormed {p} id v = elim (Option-cases (lookup id p.workers)) [
  | inl e ↦ rw (e, deregister_worker) v
  | inr (w, e) ↦
      rw (e, deregister_worker)
        (with_workers (delete id p.workers) v (All-delete WorkerOk id p.workers v.workers)
          (Distinct-keys-delete id p.workers v.registered))
]

pub heartbeat-WellFormed :
    {p : Pool} (id : String) (now : ℕ) → WellFormed p → WellFormed (heartbeat id now p).1
unfolding heartbeat
heartbeat-WellFormed {p} id now v = elim (Option-cases (lookup id p.workers)) [
  | inl e ↦ rw (e, heartbeat) v
  | inr (w, e) ↦
      rw (e, heartbeat)
        (put_worker id (beat now w) v (All-lookup WorkerOk id p.workers v.workers e))
]

pub drain_worker-WellFormed :
    {p : Pool} (id : String) → WellFormed p → WellFormed (drain_worker id p).1
unfolding drain_worker
drain_worker-WellFormed {p} id v = elim (Option-cases (lookup id p.workers)) [
  | inl e ↦ rw (e, drain_worker) v
  | inr (w, e) ↦
      rw (e, drain_worker)
        (put_worker id (drain w) v (All-lookup WorkerOk id p.workers v.workers e))
]

pub submit_task-WellFormed :
    {p : Pool} (t : Task)
    → (not (is_failed t.status) || ltb 3 t.retry_count) ≡ true
    → WellFormed p
    → WellFormed (submit_task t p)
unfolding submit_task
submit_task-WellFormed {p} t fresh v =
    let tasks = insert t.id t p.tasks in
    let queue = p.queue ++ t.id ∷ [] in
    record {
      workers = v.workers;
      registered = v.registered;
      tasks = All-insert TaskOk t.id t p.tasks (refl, fresh) v.tasks;
      known =
          sort_queue-AllKnown tasks queue (AllKnown-insert_append t.id t p.tasks p.queue v.known);
      ordered = sort_queue-InOrder tasks queue;
    }

room :
    (load max_load : ℤ)
    → leb_int max_load load ≡ false
    → (leb_int (inc load) max_load || leb_int (inc load) (pos 0)) ≡ true
room load max_load h = ground (arith, leb_int-false max_load load)

do_assign-WellFormed :
    {p : Pool} (t : Task) (w : Worker) (task_id worker_id : String) (now : ℕ)
    → lookup task_id p.tasks ≡ some t
    → lookup worker_id p.workers ≡ some w
    → WellFormed p
    → WellFormed (do_assign t w task_id worker_id now p).1
do_assign-WellFormed {p} t w task_id worker_id now ft fw v =
    elim (Bool-cases (is_unavailable w.status)) [
      | inl e ↦ rw e v
      | inr e ↦ rw e (elim (Bool-cases (leb_int w.max_load w.load)) [
        | inl full ↦ rw full v
        | inr free ↦
            let (ok, name) = All-lookup WorkerOk worker_id p.workers v.workers fw in
            rw free (record {
              workers =
                  All-insert WorkerOk worker_id (inc_load w) p.workers
                    (room w.load w.max_load free, name) v.workers;
              registered = Distinct-keys-insert worker_id (inc_load w) p.workers v.registered;
              tasks =
                  All-insert TaskOk task_id (assign_to worker_id now t) p.tasks
                    ((All-lookup TaskOk task_id p.tasks v.tasks ft).0, refl) v.tasks;
              known =
                  All-remove_first (Known (insert task_id (assign_to worker_id now t) p.tasks))
                    task_id p.queue
                    (AllKnown-insert task_id (assign_to worker_id now t) p.tasks p.queue v.known);
              ordered =
                  remove_first-Descending
                    (priority_in (insert task_id (assign_to worker_id now t) p.tasks)) task_id
                    p.queue
                    (InOrder-insert task_id t (assign_to worker_id now t) p.tasks p.queue ft refl
                      v.ordered);
            })
      ])
    ]

pub assign_task-WellFormed :
    {p : Pool} (task_id worker_id : String) (now : ℕ)
    → WellFormed p
    → WellFormed (assign_task task_id worker_id now p).1
unfolding assign_task
assign_task-WellFormed {p} task_id worker_id now v = elim (Option-cases (lookup task_id p.tasks)) [
  | inl e ↦ rw (e, assign_task) v
  | inr (t, e) ↦
      rw (e, assign_task)
        (elim (Option-cases (lookup worker_id p.workers)) [
          | inl g ↦ rw g v
          | inr (w, g) ↦ rw g (do_assign-WellFormed t w task_id worker_id now e g v)
        ])
]

pub complete_task-WellFormed :
    {p : Pool} (task_id : String) (r : TaskResult) (now : ℕ)
    → WellFormed p
    → WellFormed (complete_task task_id r now p).1
unfolding complete_task
complete_task-WellFormed {p} task_id r now v = elim (Option-cases (lookup task_id p.tasks)) [
  | inl e ↦ rw (e, complete_task) v
  | inr (t, e) ↦
      rw (e, complete_task)
        (put_task task_id t (complete_with r now t) e
          ((All-lookup TaskOk task_id p.tasks v.tasks e).0, refl) refl
          (charge-WellFormed (credit r.gen_ms) (λ w. (refl, refl, refl)) t.worker_id v))
]

after_failure-WellFormed :
    {p : Pool} (task_id reason : String) (t : Task)
    → lookup task_id p.tasks ≡ some t
    → WellFormed p
    → WellFormed (after_failure task_id reason t p)
after_failure-WellFormed {p} task_id reason t found v =
    let name = (All-lookup TaskOk task_id p.tasks v.tasks found).0 in
    elim (Bool-cases (ltb 3 (suc t.retry_count))) [
      | inl over ↦ rw over (put_task task_id t (give_up reason t) found (name, ground arith) refl v)
      | inr under ↦ rw under (record {
        workers = v.workers;
        registered = v.registered;
        tasks = All-insert TaskOk task_id (retry t) p.tasks (name, refl) v.tasks;
        known =
            sort_queue-AllKnown (insert task_id (retry t) p.tasks) (p.queue ++ task_id ∷ [])
              (AllKnown-insert_append task_id (retry t) p.tasks p.queue v.known);
        ordered = sort_queue-InOrder (insert task_id (retry t) p.tasks) (p.queue ++ task_id ∷ []);
      })
    ]

pub fail_task-WellFormed :
    {p : Pool} (task_id reason : String) → WellFormed p → WellFormed (fail_task task_id reason p).1
unfolding fail_task
fail_task-WellFormed {p} task_id reason v = elim (Option-cases (lookup task_id p.tasks)) [
  | inl e ↦ rw (e, fail_task) v
  | inr (t, e) ↦
      rw (e, fail_task)
        (after_failure-WellFormed task_id reason t e
          (charge-WellFormed blame (λ w. (refl, refl, refl)) t.worker_id v))
]
