-- ===== src/Worker/Invariant.antt =====
-- engine/internal/worker/distributed.go: the invariant of the pool, and what its parts keep.
use casper_prover.Prelude.{
  String, Bool, true, ◌||◌, not, some, ◌≡◌, inl, inr, All, ltb, Option-cases, Distinct, ℤ, pos, dec,
  leb_int, arith,
}
use casper_prover.Prelude.Assoc.{Assoc, lookup, insert, keys}
use casper_prover.Prelude.Entries.{All-insert, All-lookup, Distinct-keys-insert}
use casper_prover.Prelude.IntOrder.{leb_int_trans, dec-leb_int}
use casper_prover.Worker.{Worker, Task, Pool, new_pool}
use casper_prover.Worker.Tasks.{at_worker}
use casper_prover.Worker.Upkeep.{is_failed}
use casper_prover.Worker.Queue.{AllKnown, InOrder, AllKnown-insert, InOrder-insert}

-- The load is within the capacity, or it is 0 or less.
abbrev pub within : Worker → Bool
within w = leb_int w.load w.max_load || leb_int w.load (pos 0)

abbrev pub WorkerOk : String × Worker → Type 0
WorkerOk e = (within e.1 ≡ true) × (e.1.id ≡ e.0)

-- Only a task that was tried four times is failed.
abbrev pub TaskOk : String × Task → Type 0
TaskOk e = (e.1.id ≡ e.0) × ((not (is_failed e.1.status) || ltb 3 e.1.retry_count) ≡ true)

pub record WellFormed (p : Pool) : Type 0 where
  pub workers : All WorkerOk p.workers
  pub registered : Distinct (keys p.workers)
  pub tasks : All TaskOk p.tasks
  pub known : AllKnown p.tasks p.queue
  pub ordered : InOrder p.tasks p.queue

pub new_pool-WellFormed : WellFormed new_pool
new_pool-WellFormed = record { workers = tt; registered = tt; tasks = tt; known = tt; ordered = tt }

pub with_workers :
    {p : Pool} (workers : Assoc Worker)
    → WellFormed p
    → All WorkerOk workers
    → Distinct (keys workers)
    → WellFormed (record p { workers = workers })
with_workers workers v ok d = record {
  workers = ok;
  registered = d;
  tasks = v.tasks;
  known = v.known;
  ordered = v.ordered;
}

pub put_worker :
    {p : Pool} (id : String) (w : Worker)
    → WellFormed p
    → WorkerOk (id, w)
    → WellFormed (record p { workers = insert id w p.workers })
put_worker {p} id w v ok =
    with_workers (insert id w p.workers) v (All-insert WorkerOk id w p.workers ok v.workers)
      (Distinct-keys-insert id w p.workers v.registered)

release_within :
    (load max_load : ℤ)
    → (leb_int load max_load || leb_int load (pos 0)) ≡ true
    → (leb_int (dec load) max_load || leb_int (dec load) (pos 0)) ≡ true
release_within load max_load h = ground (
  arith,
  dec-leb_int load,
  leb_int_trans (dec load) load max_load,
  leb_int_trans (dec load) load (pos 0),
)

-- What charges the worker of a task: the load goes down by one, the name and the capacity stay.
abbrev pub Charges : (Worker → Worker) → Type 0
Charges f =
    (w : Worker) → ((f w).load ≡ dec w.load) × ((f w).max_load ≡ w.max_load) × ((f w).id ≡ w.id)

module _ (f : Worker → Worker) (charges : Charges f) where
  charged : (id : String) (w : Worker) → WorkerOk (id, w) → WorkerOk (id, f w)
  charged id w (ok, name) =
      let (load, cap, same) = charges w in
      (rw (load, cap) (release_within w.load w.max_load ok), ground arith)

  pub All-at_worker :
      (id : String) (workers : Assoc Worker)
      → All WorkerOk workers
      → All WorkerOk (at_worker f id workers)
  All-at_worker id workers h = elim (Option-cases (lookup id workers)) [
    | inl e ↦ rw (e, All) h
    | inr (w, e) ↦
        rw (e, All)
          (All-insert WorkerOk id (f w) workers (charged id w (All-lookup WorkerOk id workers h e))
            h)
  ]

  pub Distinct-keys-at_worker :
      (id : String) (workers : Assoc Worker)
      → Distinct (keys workers)
      → Distinct (keys (at_worker f id workers))
  Distinct-keys-at_worker id workers h = elim (Option-cases (lookup id workers)) [
    | inl e ↦ rw (e, Distinct) h
    | inr (w, e) ↦ rw (e, Distinct) (Distinct-keys-insert id (f w) workers h)
  ]

  pub charge-WellFormed :
      {p : Pool} (id : String)
      → WellFormed p
      → WellFormed (record p { workers = at_worker f id p.workers })
  charge-WellFormed {p} id v =
      with_workers (at_worker f id p.workers) v (All-at_worker id p.workers v.workers)
        (Distinct-keys-at_worker id p.workers v.registered)

-- A change to a known task that keeps its name and its priority.
pub put_task :
    {p : Pool} (id : String) (old new : Task)
    → lookup id p.tasks ≡ some old
    → TaskOk (id, new)
    → new.priority ≡ old.priority
    → WellFormed p
    → WellFormed (record p { tasks = insert id new p.tasks })
put_task {p} id old new found ok same v = record {
  workers = v.workers;
  registered = v.registered;
  tasks = All-insert TaskOk id new p.tasks ok v.tasks;
  known = AllKnown-insert id new p.tasks p.queue v.known;
  ordered = InOrder-insert id old new p.tasks p.queue found same v.ordered;
}
