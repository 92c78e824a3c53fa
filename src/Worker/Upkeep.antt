-- ===== src/Worker/Upkeep.antt =====
-- engine/internal/worker/distributed.go: the passes over the whole pool, that is RebalanceTasks,
-- GetStats and the two that prune.
use casper_prover.Prelude.{
  ℕ, suc, ◌+◌, ◌*◌, ◌/◌, String, Bool, true, false, ◌&&◌, not, Option, none, some, List, [], ◌∷◌,
  ◌++◌, ltb, if◌then◌else◌, length, count,
}
use casper_prover.Prelude.Assoc.{Assoc, lookup, values}
use casper_prover.Worker.{
  Worker, TaskStatus, pending, completed, failed, timeout, offline, Task, Pool, is_offline,
  is_assigned, dec_load,
}
use casper_prover.Worker.Tasks.{sort_queue, at_worker}

-- Whether the worker of a task is gone.
abbrev pub is_gone : Option Worker → Bool
is_gone none = true
is_gone (some w) = is_offline w.status

abbrev pub orphaned : Assoc Worker → Task → Bool
orphaned workers t = is_assigned t.status && is_gone (lookup t.worker_id workers)

abbrev pub unassign : Task → Task
unassign t = record t { status = pending; worker_id = "" }

-- The loop of RebalanceTasks: the tasks after it, and the ids that it puts in the queue.
unfoldable pub reclaim : Assoc Worker → Assoc Task → Assoc Task × List String
reclaim workers [] = ([], [])
reclaim workers ((k, t) ∷ tasks) =
    let (rest, ids) = reclaim workers tasks in
    if orphaned workers t then ((k, unassign t) ∷ rest, t.id ∷ ids) else ((k, t) ∷ rest, ids)

-- `RebalanceTasks`: the count, and the pool after it.
unfoldable pub rebalance_tasks : Pool → ℕ × Pool
rebalance_tasks p =
    let (tasks, ids) = reclaim p.workers p.tasks in
    let moved = p.queue ++ ids in
    (
      length ids,
      record p {
        tasks = tasks;
        queue = if ltb 0 (length ids) then sort_queue tasks moved else moved;
      },
    )

-- The values that GetStats returns.
pub record Stats : Type 0 where
  pub workers_online : ℕ
  pub tasks_pending : ℕ
  pub tasks_completed : ℕ
  pub tasks_failed : ℕ
  pub avg_gen_ms : ℕ

abbrev pub is_pending : TaskStatus → Bool
is_pending pending = true
is_pending _ = false

abbrev pub is_completed : TaskStatus → Bool
is_completed completed = true
is_completed _ = false

abbrev pub is_failed : TaskStatus → Bool
is_failed failed = true
is_failed _ = false

-- `totalGen`
abbrev pub total_gen : List Worker → ℕ
total_gen [] = 0
total_gen (w ∷ ws) = w.avg_gen_ms + total_gen ws

-- `GetStats`; a mean of 0 adds nothing to `totalGen`.
unfoldable pub get_stats : Pool → Stats
get_stats p =
    let ws = values p.workers in
    let ts = values p.tasks in
    let gen_count = count (λ w. ltb 0 w.avg_gen_ms) ws in
    record {
      workers_online = count (λ w. not (is_offline w.status)) ws;
      tasks_pending = count (λ t. is_pending t.status) ts;
      tasks_completed = count (λ t. is_completed t.status) ts;
      tasks_failed = count (λ t. is_failed t.status) ts;
      avg_gen_ms = if ltb 0 gen_count then total_gen ws / gen_count else 0;
    }

abbrev pub time_out : Task → Task
time_out t = record t { status = timeout }

-- now-t.AssignedAt > timeoutSec*1000
abbrev pub is_stale : ℕ → ℕ → Task → Bool
is_stale timeout_sec now t = is_assigned t.status && ltb (timeout_sec * 1000 + t.assigned_at) now

abbrev pub release : Bool → Task → Assoc Worker → Assoc Worker
release stale t workers = if stale then at_worker dec_load t.worker_id workers else workers

-- The loop of PruneStaleTasks: the workers and the tasks after it, and the count.
unfoldable pub prune_stale : ℕ → ℕ → Assoc Worker → Assoc Task → Assoc Worker × Assoc Task × ℕ
prune_stale timeout_sec now workers [] = (workers, [], 0)
prune_stale timeout_sec now workers ((k, t) ∷ tasks) =
    let stale = is_stale timeout_sec now t in
    let (left, rest, n) = prune_stale timeout_sec now (release stale t workers) tasks in
    (left, (k, if stale then time_out t else t) ∷ rest, if stale then suc n else n)

-- `PruneStaleTasks`
unfoldable pub prune_stale_tasks : ℕ → ℕ → Pool → ℕ × Pool
prune_stale_tasks timeout_sec now p =
    let (workers, tasks, n) = prune_stale timeout_sec now p.workers p.tasks in
    (n, record p { workers = workers; tasks = tasks })

-- now-lastHB > timeoutSec*1000
abbrev pub is_silent : ℕ → ℕ → Worker → Bool
is_silent timeout_sec now w = ltb (timeout_sec * 1000 + w.last_heartbeat) now

abbrev pub put_offline : Worker → Worker
put_offline w = record w { status = offline }

-- `PruneOfflineWorkers`
unfoldable pub silence : ℕ → ℕ → Assoc Worker → Assoc Worker
silence timeout_sec now [] = []
silence timeout_sec now ((k, w) ∷ workers) =
    (k, if is_silent timeout_sec now w then put_offline w else w) ∷ silence timeout_sec now workers

unfoldable pub prune_offline_workers : ℕ → ℕ → Pool → ℕ × Pool
unfolding silence
prune_offline_workers timeout_sec now p = (
  count (is_silent timeout_sec now) (values p.workers),
  record p { workers = silence timeout_sec now p.workers },
)
