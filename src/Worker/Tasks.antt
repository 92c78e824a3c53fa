-- ===== src/Worker/Tasks.antt =====
-- engine/internal/worker/distributed.go: the tasks of the pool and its queue, that is SubmitTask,
-- AssignTask, CompleteTask and FailTask. The last two release the pool's mutex before they write the
-- task; here a call is one step, so calls that overlap are left out.
use casper_prover.Prelude.{
  ℕ, suc, ◌+◌, ◌/◌, String, Bool, Option, none, some, List, [], ◌∷◌, ◌++◌, ltb, ◌==◌, str_eq,
  if◌then◌else◌, ℤ, pos, leb_int, ltb_int,
}
use casper_prover.Prelude.Assoc.{Assoc, lookup, insert}
use casper_prover.Prelude.Sort.{sort}
use casper_prover.Worker.{
  Worker, pending, assigned, completed, failed, Task, TaskResult, Pool, Error, worker_not_found,
  task_not_found, worker_unavailable, worker_at_max_load, is_unavailable, inc_load, dec_load,
}

-- p.tasks[id].Priority; the code panics on an id that is no task.
abbrev pub priority_of : Option Task → ℤ
priority_of none = pos 0
priority_of (some t) = t.priority

abbrev pub before : Assoc Task → String → String → Bool
before tasks a b = ltb_int (priority_of (lookup b tasks)) (priority_of (lookup a tasks))

-- `sortQueue`: highest priority first, stable.
unfoldable pub sort_queue : Assoc Task → List String → List String
sort_queue tasks queue = sort (before tasks) queue

abbrev pub new_task : String → String → List ℕ → List ℕ → List ℕ → String → ℤ → ℕ → Task
new_task id agent input output model use_case priority now = record {
  id = id;
  input_data = input;
  output_data = output;
  model_data = model;
  agent = agent;
  use_case = use_case;
  priority = priority;
  created_at = now;
  assigned_at = 0;
  completed_at = 0;
  worker_id = "";
  status = pending;
  result = "";
  error = "";
  retry_count = 0;
}

-- `SubmitTask`, with the task that it builds.
unfoldable pub submit_task : Task → Pool → Pool
submit_task t p =
    let tasks = insert t.id t p.tasks in
    record p { tasks = tasks; queue = sort_queue tasks (p.queue ++ t.id ∷ []) }

-- The loop that takes the first entry of an id out of the queue.
unfoldable pub remove_first : String → List String → List String
remove_first id [] = []
remove_first id (j ∷ queue) = if str_eq j id then queue else j ∷ remove_first id queue

abbrev pub assign_to : String → ℕ → Task → Task
assign_to worker_id now t = record t { status = assigned; assigned_at = now; worker_id = worker_id }

abbrev pub do_assign : Task → Worker → String → String → ℕ → Pool → Option Error × Pool
do_assign t w task_id worker_id now p =
    if is_unavailable w.status
    then (some (worker_unavailable worker_id), p)
    else (if leb_int w.max_load w.load then (some (worker_at_max_load worker_id), p) else (
      none,
      record {
        workers = insert worker_id (inc_load w) p.workers;
        tasks = insert task_id (assign_to worker_id now t) p.tasks;
        queue = remove_first task_id p.queue;
      },
    ))

-- `AssignTask`
unfoldable pub assign_task : String → String → ℕ → Pool → Option Error × Pool
assign_task task_id worker_id now p = elim (lookup task_id p.tasks) [
  | none ↦ (some (task_not_found task_id), p)
  | some t ↦ elim (lookup worker_id p.workers) [
    | none ↦ (some (worker_not_found worker_id), p)
    | some w ↦ do_assign t w task_id worker_id now p
  ]
]

-- What CompleteTask and FailTask do to the worker of a task, if it is registered.
abbrev pub at_worker : (Worker → Worker) → String → Assoc Worker → Assoc Worker
at_worker f id workers = elim (lookup id workers) [
  | none ↦ workers
  | some w ↦ insert id (f w) workers
]

abbrev pub average : ℕ → ℕ → ℕ
average avg gen_ms = if avg == 0 then gen_ms else (avg + gen_ms) / 2

abbrev pub credit : ℕ → Worker → Worker
credit gen_ms w = record (dec_load w) {
  proofs_generated = suc w.proofs_generated;
  avg_gen_ms = average w.avg_gen_ms gen_ms;
}

abbrev pub blame : Worker → Worker
blame w = record (dec_load w) { failures = suc w.failures }

abbrev pub complete_with : TaskResult → ℕ → Task → Task
complete_with r now t = record t { status = completed; completed_at = now; result = r.proof_id }

-- `CompleteTask`
unfoldable pub complete_task : String → TaskResult → ℕ → Pool → Option Error × Pool
complete_task task_id r now p = elim (lookup task_id p.tasks) [
  | none ↦ (some (task_not_found task_id), p)
  | some t ↦ (
    none,
    record p {
      workers = at_worker (credit r.gen_ms) t.worker_id p.workers;
      tasks = insert task_id (complete_with r now t) p.tasks;
    },
  )
]

abbrev pub give_up : String → Task → Task
give_up reason t = record t { retry_count = suc t.retry_count; status = failed; error = reason }

abbrev pub retry : Task → Task
retry t = record t { retry_count = suc t.retry_count; status = pending; worker_id = "" }

-- FailTask once the worker is charged: the tasks and the queue.
abbrev pub after_failure : String → String → Task → Pool → Pool
after_failure task_id reason t p =
    if ltb 3 (suc t.retry_count)
    then record p { tasks = insert task_id (give_up reason t) p.tasks }
    else record p {
      tasks = insert task_id (retry t) p.tasks;
      queue = sort_queue (insert task_id (retry t) p.tasks) (p.queue ++ task_id ∷ []);
    }

-- `FailTask`
unfoldable pub fail_task : String → String → Pool → Option Error × Pool
fail_task task_id reason p = elim (lookup task_id p.tasks) [
  | none ↦ (some (task_not_found task_id), p)
  | some t ↦ (
    none,
    after_failure task_id reason t (record p { workers = at_worker blame t.worker_id p.workers }),
  )
]
