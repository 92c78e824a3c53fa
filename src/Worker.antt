-- ===== src/Worker.antt =====
-- engine/internal/worker/distributed.go: the pool of workers and its task queue. The clock and the
-- id that SubmitTask draws are arguments, times are milliseconds, and a method is one step, also where
-- the code releases the pool's mutex early, so calls do not overlap. A load is an `int` that may become
-- negative. Where the code walks a map, the entries' order stands for Go's.
pub mod Tasks
pub mod Upkeep
pub mod Queue
pub mod Invariant
pub mod Steps
pub mod Passes
pub mod History
pub mod Selection
pub mod Accounting
use mathlib.Core.Option
use casper_prover.Prelude.{
  ℕ, zero, suc, ◌+◌, ◌*◌, ◌/◌, String, Bool, true, false, ◌&&◌, ◌||◌, not, Option, none, some, List,
  [], ◌∷◌, ◌++◌, ltb, ◌==◌, str_eq, if◌then◌else◌, length, count, map, ℤ, pos, inc, dec, leb_int,
  ltb_int,
}
use casper_prover.Prelude.Assoc.{Assoc, lookup, insert, delete, values}
use casper_prover.Prelude.Sort.{sort}

pub data WorkerStatus : Type 0 where
  idle busy draining offline : WorkerStatus

pub record Worker : Type 0 where
  pub id : String
  pub addr : String
  pub status : WorkerStatus
  pub load : ℤ
  pub max_load : ℤ
  pub last_heartbeat : ℕ
  pub proofs_generated : ℕ
  pub avg_gen_ms : ℕ
  pub failures : ℕ
  pub current_tasks : ℕ

-- The values that the package gives a task's `Status`.
pub data TaskStatus : Type 0 where
  pending assigned completed failed timeout : TaskStatus

-- `Task`; its result is the proof id whose bytes the code stores.
pub record Task : Type 0 where
  pub id : String
  pub input_data : List ℕ
  pub output_data : List ℕ
  pub model_data : List ℕ
  pub agent : String
  pub use_case : String
  pub priority : ℤ
  pub created_at : ℕ
  pub assigned_at : ℕ
  pub completed_at : ℕ
  pub worker_id : String
  pub status : TaskStatus
  pub result : String
  pub error : String
  pub retry_count : ℕ

-- The fields of `TaskResult` that CompleteTask reads.
pub record TaskResult : Type 0 where
  pub proof_id : String
  pub gen_ms : ℕ

pub record Pool : Type 0 where
  pub workers : Assoc Worker
  pub tasks : Assoc Task
  pub queue : List String

pub data Error : Type 0 where
  worker_not_found : String → Error
  task_not_found : String → Error
  worker_unavailable : String → Error
  worker_at_max_load : String → Error
  no_available_worker : Error

-- `NewPool`
abbrev pub new_pool : Pool
new_pool = record { workers = []; tasks = []; queue = [] }

abbrev pub is_offline : WorkerStatus → Bool
is_offline offline = true
is_offline _ = false

-- Offline or Draining, the test of AssignTask; SelectWorker asks for the contrary.
abbrev pub is_unavailable : WorkerStatus → Bool
is_unavailable offline = true
is_unavailable draining = true
is_unavailable _ = false

abbrev pub is_assigned : TaskStatus → Bool
is_assigned assigned = true
is_assigned _ = false

-- `incLoad` and `decLoad`
abbrev pub inc_load : Worker → Worker
inc_load w = record w { load = inc w.load; current_tasks = suc w.current_tasks }

abbrev pub pred : ℕ → ℕ
pred zero = 0
pred (suc n) = n

abbrev pub dec_load : Worker → Worker
dec_load w = record w { load = dec w.load; current_tasks = pred w.current_tasks }

-- `RegisterWorker`
unfoldable pub register_worker : String → String → ℤ → ℕ → Pool → Pool
register_worker id addr max_load now p = record p {
  workers =
      insert id
        (record {
          id = id;
          addr = addr;
          status = idle;
          load = pos 0;
          max_load = max_load;
          last_heartbeat = now;
          proofs_generated = 0;
          avg_gen_ms = 0;
          failures = 0;
          current_tasks = 0;
        })
        p.workers;
}

-- `DeregisterWorker`
unfoldable pub deregister_worker : String → Pool → Option Error × Pool
deregister_worker id p = elim (lookup id p.workers) [
  | none ↦ (some (worker_not_found id), p)
  | some _ ↦ (none, record p { workers = delete id p.workers })
]

abbrev pub beat : ℕ → Worker → Worker
beat now w = record w {
  last_heartbeat = now;
  status = if is_offline w.status then idle else w.status;
}

-- `Heartbeat`
unfoldable pub heartbeat : String → ℕ → Pool → Option Error × Pool
heartbeat id now p = elim (lookup id p.workers) [
  | none ↦ (some (worker_not_found id), p)
  | some w ↦ (none, record p { workers = insert id (beat now w) p.workers })
]

abbrev pub drain : Worker → Worker
drain w = record w { status = draining }

-- `DrainWorker`
unfoldable pub drain_worker : String → Pool → Option Error × Pool
drain_worker id p = elim (lookup id p.workers) [
  | none ↦ (some (worker_not_found id), p)
  | some w ↦ (none, record p { workers = insert id (drain w) p.workers })
]

-- `GetTask` and `GetWorkerLoad`
abbrev pub get_task : String → Pool → Option Task
get_task id p = lookup id p.tasks

abbrev pub load_of : Option Worker → ℤ × ℤ
load_of none = (pos 0, pos 0)
load_of (some w) = (w.load, w.max_load)

abbrev pub get_worker_load : String → Pool → ℤ × ℤ
get_worker_load id p = load_of (lookup id p.workers)

-- The two tests of SelectWorker's loop.
abbrev pub can_take : Worker → Bool
can_take w = not (is_unavailable w.status) && not (leb_int w.max_load w.load)

abbrev pub better : Worker → Option Worker → Option Worker
better w none = some w
better w (some best) = if ltb_int w.load best.load then some w else some best

unfoldable pub select_loop : Option Worker → List Worker → Option Worker
select_loop best [] = best
select_loop best (w ∷ ws) = select_loop (if can_take w then better w best else best) ws

-- `SelectWorker`; none is its error.
unfoldable pub select_worker : Pool → Option Worker
unfolding select_loop
select_worker p = select_loop none (values p.workers)

-- `GetQueueDepth`
abbrev pub get_queue_depth : Pool → ℕ
get_queue_depth p = length p.queue
