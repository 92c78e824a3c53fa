-- ===== src/Worker/Accounting.antt =====
-- engine/internal/worker/distributed.go: the load of a worker against the tasks assigned to it.
use casper_prover.Prelude.{
  ℕ, String, false, none, some, [], ◌∷◌, ◌≡◌, refl, inl, inr, All, eq_iff, Bool-cases, dec, arith,
}
use casper_prover.Prelude.Assoc.{Assoc, lookup, insert, lookup-insert, values}
use casper_prover.Worker.{Worker, Task, TaskResult, Pool}
use casper_prover.Worker.Tasks.{at_worker, credit, complete_with, complete_task}
use casper_prover.Worker.Upkeep.{orphaned, reclaim, rebalance_tasks}

abbrev pub after_complete : String → TaskResult → ℕ → Task → Worker → Pool → Pool
after_complete task_id r now t w p = record p {
  workers = insert t.worker_id (credit r.gen_ms w) p.workers;
  tasks = insert task_id (complete_with r now t) p.tasks;
}

pub complete_task_once :
    (p : Pool) (task_id : String) (r : TaskResult) (now : ℕ) (t : Task) (w : Worker)
    → lookup task_id p.tasks ≡ some t
    → lookup t.worker_id p.workers ≡ some w
    → complete_task task_id r now p ≡ (none, after_complete task_id r now t w p)
unfolding complete_task
complete_task_once p task_id r now t w known found =
    rw (known, complete_task) (rw (found, at_worker) refl)

-- CompleteTask does not ask for a task that is assigned: a second call for a task whose worker is
-- registered succeeds too, and takes the worker's load down by one more.
pub complete_task-complete_task :
    (p : Pool) (task_id : String) (r again : TaskResult) (now later : ℕ) (t : Task) (w : Worker)
    → lookup task_id p.tasks ≡ some t
    → lookup t.worker_id p.workers ≡ some w
    → ((complete_task task_id again later (complete_task task_id r now p).1).0 ≡ none)
      × (lookup t.worker_id
            (complete_task task_id again later (complete_task task_id r now p).1).1.workers
          ≡ some (credit again.gen_ms (credit r.gen_ms w)))
      × ((credit again.gen_ms (credit r.gen_ms w)).load ≡ dec (dec w.load))
complete_task-complete_task p task_id r again now later t w known found =
    let q = after_complete task_id r now t w p in
    let first = complete_task_once p task_id r now t w known found in
    let second =
      complete_task_once q task_id again later (complete_with r now t) (credit r.gen_ms w)
        (ground (
          arith,
          lookup-insert task_id task_id (complete_with r now t) p.tasks,
          eq_iff task_id task_id,
        ))
        (ground (
          arith,
          lookup-insert t.worker_id t.worker_id (credit r.gen_ms w) p.workers,
          eq_iff t.worker_id t.worker_id,
        )) in
    rw (first, second)
      (
        refl,
        ground (
          arith,
          lookup-insert t.worker_id t.worker_id (credit again.gen_ms (credit r.gen_ms w)) q.workers,
          eq_iff t.worker_id t.worker_id,
        ),
        refl,
      )

reclaim-none_orphaned :
    (workers : Assoc Worker) (tasks : Assoc Task)
    → All (λ t. orphaned workers t ≡ false) (values (reclaim workers tasks).0)
unfolding reclaim
reclaim-none_orphaned workers [] = tt
reclaim-none_orphaned workers ((k, t) ∷ tasks) = elim (Bool-cases (orphaned workers t)) [
  | inl e ↦ rw e (refl, reclaim-none_orphaned workers tasks)
  | inr e ↦ rw e (e, reclaim-none_orphaned workers tasks)
]

-- After RebalanceTasks no task is assigned to a worker that is offline or not registered. No
-- worker's load changes, so one that comes back counts the tasks that it lost.
pub rebalance_tasks-none_orphaned :
    (p : Pool)
    → All (λ t. orphaned p.workers t ≡ false) (values (rebalance_tasks p).1.tasks)
      × ((rebalance_tasks p).1.workers ≡ p.workers)
unfolding rebalance_tasks
rebalance_tasks-none_orphaned p = (reclaim-none_orphaned p.workers p.tasks, refl)
