-- ===== src/Worker/History.antt =====
-- engine/internal/worker/distributed.go: a pool under any sequence of calls.
use casper_prover.Prelude.{ℕ, String, List, [], ◌∷◌, refl, ℤ}
use casper_prover.Worker.{
  TaskResult, Pool, new_pool, register_worker, deregister_worker, heartbeat, drain_worker,
}
use casper_prover.Worker.Tasks.{new_task, submit_task, assign_task, complete_task, fail_task}
use casper_prover.Worker.Upkeep.{rebalance_tasks, prune_stale_tasks, prune_offline_workers}
use casper_prover.Worker.Invariant.{WellFormed, new_pool-WellFormed}
use casper_prover.Worker.Steps.{
  register_worker-WellFormed, deregister_worker-WellFormed, heartbeat-WellFormed,
  drain_worker-WellFormed, submit_task-WellFormed, assign_task-WellFormed, complete_task-WellFormed,
  fail_task-WellFormed,
}
use casper_prover.Worker.Passes.{
  rebalance_tasks-WellFormed, prune_stale_tasks-WellFormed, prune_offline_workers-WellFormed,
}

-- The methods that change a pool, with what the clock and the draw of an id give them.
pub data Call : Type 0 where
  register : String → String → ℤ → ℕ → Call
  deregister : String → Call
  beat : String → ℕ → Call
  leave : String → Call
  submit : String → String → List ℕ → List ℕ → List ℕ → String → ℤ → ℕ → Call
  assign : String → String → ℕ → Call
  complete : String → TaskResult → ℕ → Call
  fail : String → String → Call
  rebalance : Call
  prune_tasks : ℕ → ℕ → Call
  prune_workers : ℕ → ℕ → Call

unfoldable pub call : Call → Pool → Pool
call (register id addr max_load now) p = register_worker id addr max_load now p
call (deregister id) p = (deregister_worker id p).1
call (beat id now) p = (heartbeat id now p).1
call (leave id) p = (drain_worker id p).1
call (submit id agent input output model use_case priority now) p =
    submit_task (new_task id agent input output model use_case priority now) p
call (assign task_id worker_id now) p = (assign_task task_id worker_id now p).1
call (complete task_id r now) p = (complete_task task_id r now p).1
call (fail task_id reason) p = (fail_task task_id reason p).1
call rebalance p = (rebalance_tasks p).1
call (prune_tasks timeout_sec now) p = (prune_stale_tasks timeout_sec now p).1
call (prune_workers timeout_sec now) p = (prune_offline_workers timeout_sec now p).1

unfoldable pub run : List Call → Pool → Pool
unfolding call
run [] p = p
run (c ∷ calls) p = run calls (call c p)

call-WellFormed : (c : Call) {p : Pool} → WellFormed p → WellFormed (call c p)
unfolding call
call-WellFormed (register id addr max_load now) v =
    register_worker-WellFormed id addr max_load now v
call-WellFormed (deregister id) v = deregister_worker-WellFormed id v
call-WellFormed (beat id now) v = heartbeat-WellFormed id now v
call-WellFormed (leave id) v = drain_worker-WellFormed id v
call-WellFormed (submit id agent input output model use_case priority now) v =
    submit_task-WellFormed (new_task id agent input output model use_case priority now) refl v
call-WellFormed (assign task_id worker_id now) v = assign_task-WellFormed task_id worker_id now v
call-WellFormed (complete task_id r now) v = complete_task-WellFormed task_id r now v
call-WellFormed (fail task_id reason) v = fail_task-WellFormed task_id reason v
call-WellFormed rebalance v = rebalance_tasks-WellFormed v
call-WellFormed (prune_tasks timeout_sec now) v = prune_stale_tasks-WellFormed timeout_sec now v
call-WellFormed (prune_workers timeout_sec now) v =
    prune_offline_workers-WellFormed timeout_sec now v

run-WellFormed_from : (calls : List Call) {p : Pool} → WellFormed p → WellFormed (run calls p)
unfolding run
run-WellFormed_from [] v = v
run-WellFormed_from (c ∷ calls) v = run-WellFormed_from calls (call-WellFormed c v)

-- After any sequence of calls on a new pool, each one a step: the load that a worker counts is at most
-- its capacity, or it is 0 or less; a worker and a task stand under their own id, and no worker twice;
-- a task is failed only if it was tried more than three times; each queued id is a task's, so the
-- comparison of sortQueue finds no nil; and the queue is in order of priority, highest first.
pub run-WellFormed : (calls : List Call) → WellFormed (run calls new_pool)
run-WellFormed calls = run-WellFormed_from calls new_pool-WellFormed
