-- ===== src/Worker/Selection.antt =====
-- engine/internal/worker/distributed.go: SelectWorker, and AssignTask on the worker it chose.
use casper_prover.Prelude.{
  ℕ, String, true, false, ◌||◌, not, Option, none, some, List, [], ◌∷◌, ◌≡◌, refl, inl, inr, All,
  if◌then◌else◌, Bool-cases, leb_int, ltb_int, arith,
}
use mathlib.Core.Path.{subst, sym}
use casper_prover.Prelude.Assoc.{Assoc, lookup, insert, values}
use casper_prover.Prelude.Entries.{Stored, All-Stored}
use casper_prover.Prelude.IntOrder.{leb_int_refl, leb_int_trans, ltb_int-true, ltb_int-false}
use casper_prover.Worker.{
  Worker, Task, Pool, is_unavailable, inc_load, can_take, better, select_loop, select_worker,
}
use casper_prover.Worker.Tasks.{assign_to, do_assign, assign_task, remove_first}
use casper_prover.Worker.Invariant.{WorkerOk, WellFormed}
use casper_prover.Worker.History.{Call, run, run-WellFormed}
use casper_prover.Worker.{new_pool}

-- No worker that can take a task has a smaller load.
abbrev pub Least : Worker → Worker → Type 0
Least w x = (not (can_take x) || leb_int w.load x.load) ≡ true

abbrev Below : Worker → Option Worker → Type 0
Below w none = Unit
Below w (some best) = leb_int w.load best.load ≡ true

keep_or_take :
    (w x : Worker) (best : Option Worker)
    → Below w (if can_take x then better x best else best)
    → Below w best × Least w x
keep_or_take w x best h = elim (Bool-cases (can_take x)) [
  | inl e ↦ let (b, l) = took best (rw e at h) in (b, rw (e, l) refl)
  | inr e ↦ (rw e at h, rw e refl)
]
  where
    took :
        (old : Option Worker)
        → Below w (better x old)
        → Below w old × (leb_int w.load x.load ≡ true)
    took none g = (tt, g)
    took (some b) g = elim (Bool-cases (ltb_int x.load b.load)) [
      | inl lt ↦
          let le : leb_int w.load x.load ≡ true = rw lt at g in
          (leb_int_trans w.load x.load b.load le (ltb_int-true x.load b.load lt), le)
      | inr ge ↦
          let le : leb_int w.load b.load ≡ true = rw ge at g in
          (le, leb_int_trans w.load b.load x.load le (ltb_int-false x.load b.load ge))
    ]

select_loop-Least :
    (best : Option Worker) (ws : List Worker) (w : Worker)
    → select_loop best ws ≡ some w
    → Below w best × All (Least w) ws
unfolding select_loop
select_loop-Least none [] w h = cc
select_loop-Least (some b) [] w h =
    let same : b ≡ w = ground arith in (rw same (leb_int_refl w.load), tt)
select_loop-Least best (x ∷ ws) w h =
    let (below, rest) = select_loop-Least (if can_take x then better x best else best) ws w h in
    let (old, new) = keep_or_take w x best below in (old, (new, rest))

abbrev Holds : (Worker → Type 0) → Option Worker → Type 0
Holds P none = Unit
Holds P (some w) = P w

-- What holds of every worker that can take a task holds of the one chosen.
select_loop-Holds :
    (P : Worker → Type 0) (best : Option Worker) (ws : List Worker)
    → Holds P best
    → All (λ x. can_take x ≡ true → P x) ws
    → Holds P (select_loop best ws)
unfolding select_loop
select_loop-Holds P best [] b h = b
select_loop-Holds P best (x ∷ ws) b (q, h) =
    select_loop-Holds P (if can_take x then better x best else best) ws (step best b) h
  where
    choice : (old : Option Worker) → Holds P old → P x → Holds P (better x old)
    choice none o p = p
    choice (some y) o p = elim (Bool-cases (ltb_int x.load y.load)) [
      | inl e ↦ rw e p
      | inr e ↦ rw e o
    ]

    step : (old : Option Worker) → Holds P old → Holds P (if can_take x then better x old else old)
    step old o = elim (Bool-cases (can_take x)) [
      | inl e ↦ rw (e, Holds) (choice old o (q e))
      | inr e ↦ rw (e, Holds) o
    ]

select_loop-none :
    (best : Option Worker) (ws : List Worker)
    → select_loop best ws ≡ none
    → (best ≡ none) × All (λ x. can_take x ≡ false) ws
unfolding select_loop
select_loop-none best [] h = (h, tt)
select_loop-none best (x ∷ ws) h =
    let (b, rest) = select_loop-none (if can_take x then better x best else best) ws h in
    elim (Bool-cases (can_take x)) [
      | inl e ↦ absurd (chosen best (rw e at b))
      | inr e ↦ (rw e at b, (e, rest))
    ]
  where
    chosen : (old : Option Worker) → better x old ≡ none → ⊥
    chosen none g = cc
    chosen (some y) g = ground arith

-- A worker that can take a task, found under its own id.
abbrev Ready : Assoc Worker → Worker → Type 0
Ready workers w = (can_take w ≡ true) × (lookup w.id workers ≡ some w)

All-Ready :
    (all workers : Assoc Worker)
    → All (Stored all) workers
    → All WorkerOk workers
    → All (λ x. can_take x ≡ true → Ready all x) (values workers)
All-Ready all [] n h = tt
All-Ready all ((k, w) ∷ workers) (q, n) ((ok, name), h) = (
  λ can. (can, subst (λ (s : String). lookup s all ≡ some w) (sym name) q),
  All-Ready all workers n h,
)

-- Where SelectWorker finds no worker, none of the pool can take a task.
pub select_worker-none :
    (p : Pool) → select_worker p ≡ none → All (λ x. can_take x ≡ false) (values p.workers)
unfolding select_worker
select_worker-none p h = (select_loop-none none (values p.workers) h).1

select_worker-Ready :
    {p : Pool} (w : Worker) → WellFormed p → select_worker p ≡ some w → Ready p.workers w
unfolding select_worker
select_worker-Ready {p} w v h =
    let ready = All-Ready p.workers p.workers (All-Stored p.workers v.registered) v.workers in
    let held_by = select_loop-Holds (Ready p.workers) none (values p.workers) tt ready in
    rw (h, Holds) at held_by

do_assign-ready :
    (t : Task) (w : Worker) (task_id worker_id : String) (now : ℕ) (p : Pool)
    → can_take w ≡ true
    → do_assign t w task_id worker_id now p ≡ (
      none,
      record {
        workers = insert worker_id (inc_load w) p.workers;
        tasks = insert task_id (assign_to worker_id now t) p.tasks;
        queue = remove_first task_id p.queue;
      },
    )
do_assign-ready t w task_id worker_id now p can =
    let open_to : is_unavailable w.status ≡ false = ground arith in
    let free : leb_int w.max_load w.load ≡ false = ground arith in rw (open_to, free)

select_worker-Least :
    (p : Pool) (w : Worker) → select_worker p ≡ some w → All (Least w) (values p.workers)
unfolding select_worker
select_worker-Least p w h = (select_loop-Least none (values p.workers) w h).1

assign_task-ready :
    (p : Pool) (w : Worker) (task_id : String) (t : Task) (now : ℕ)
    → lookup task_id p.tasks ≡ some t
    → lookup w.id p.workers ≡ some w
    → can_take w ≡ true
    → assign_task task_id w.id now p ≡ (
      none,
      record {
        workers = insert w.id (inc_load w) p.workers;
        tasks = insert task_id (assign_to w.id now t) p.tasks;
        queue = remove_first task_id p.queue;
      },
    )
unfolding assign_task
assign_task-ready p w task_id t now known found can =
    rw (known, assign_task) (rw (found, assign_task) (do_assign-ready t w task_id w.id now p can))

-- After any sequence of calls on a new pool, the worker that SelectWorker returns has the least
-- load of those that can take a task, and AssignTask of any known task to its id succeeds: the
-- worker's load goes up by one, the task is assigned to it, and the first entry of its id, if there is
-- one, is taken out of the queue.
pub assign_task-select_worker :
    (calls : List Call) (w : Worker) (task_id : String) (t : Task) (now : ℕ)
    → select_worker (run calls new_pool) ≡ some w
    → lookup task_id (run calls new_pool).tasks ≡ some t
    → All (Least w) (values (run calls new_pool).workers)
      × (assign_task task_id w.id now (run calls new_pool) ≡ (
        none,
        record {
          workers = insert w.id (inc_load w) (run calls new_pool).workers;
          tasks = insert task_id (assign_to w.id now t) (run calls new_pool).tasks;
          queue = remove_first task_id (run calls new_pool).queue;
        },
      ))
assign_task-select_worker calls w task_id t now chosen known =
    let (can, found) = select_worker-Ready w (run-WellFormed calls) chosen in
    (
      select_worker-Least (run calls new_pool) w chosen,
      assign_task-ready (run calls new_pool) w task_id t now known found can,
    )
