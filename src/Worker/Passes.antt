-- ===== src/Worker/Passes.antt =====
-- engine/internal/worker/distributed.go: the passes over the whole pool keep its invariant.
use mathlib.Core.Path.{fun_ext}
use casper_prover.Prelude.{
  ℕ, String, Bool, true, false, List, [], ◌∷◌, ◌++◌, ◌≡◌, refl, inl, inr, ap, All, ltb, str_eq,
  Bool-cases, Distinct, length, arith, held,
}
use casper_prover.Prelude.Assoc.{Assoc, lookup, keys}
use casper_prover.Prelude.Entries.{Known, All-Known-keys}
use casper_prover.Worker.{Worker, Task, Pool, dec_load}
use casper_prover.Worker.Upkeep.{
  orphaned, reclaim, rebalance_tasks, is_stale, release, prune_stale, prune_stale_tasks, is_silent,
  silence, prune_offline_workers,
}
use casper_prover.Worker.Queue.{
  AllKnown, InOrder, sort_queue-InOrder, sort_queue-AllKnown, priority_in, All-append,
}
use casper_prover.Worker.Invariant.{
  WorkerOk, TaskOk, WellFormed, with_workers, All-at_worker, Distinct-keys-at_worker,
}

-- The same keys with the same priorities: what a pass does to the tasks.
abbrev pub Agree : Assoc Task → Assoc Task → Type 0
Agree new old =
    (id : String)
    → (held (lookup id new) ≡ held (lookup id old)) × (priority_in new id ≡ priority_in old id)

Agree-AllKnown :
    (new old : Assoc Task) (queue : List String)
    → Agree new old
    → AllKnown old queue
    → AllKnown new queue
Agree-AllKnown new old [] same h = tt
Agree-AllKnown new old (j ∷ queue) same (q, h) =
    (rw (same j).0 q, Agree-AllKnown new old queue same h)

Agree-InOrder :
    (new old : Assoc Task) (queue : List String)
    → Agree new old
    → InOrder old queue
    → InOrder new queue
Agree-InOrder new old queue same h =
    let e : priority_in new ≡ priority_in old = fun_ext (λ j. (same j).1) in rw e h

reclaim-Agree :
    (workers : Assoc Worker) (tasks : Assoc Task) → Agree (reclaim workers tasks).0 tasks
unfolding reclaim lookup
reclaim-Agree workers [] id = (refl, refl)
reclaim-Agree workers ((k, t) ∷ tasks) id =
    let (h, q) = reclaim-Agree workers tasks id in
    elim (Bool-cases (str_eq k id)) [
      | inl e ↦ (ground (arith), ground (arith))
      | inr e ↦ (ground (arith), ground (arith))
    ]

reclaim-TaskOk :
    (workers : Assoc Worker) (tasks : Assoc Task)
    → All TaskOk tasks
    → All TaskOk (reclaim workers tasks).0
unfolding reclaim
reclaim-TaskOk workers [] h = tt
reclaim-TaskOk workers ((k, t) ∷ tasks) (q, h) = elim (Bool-cases (orphaned workers t)) [
  | inl e ↦ rw e ((q.0, refl), reclaim-TaskOk workers tasks h)
  | inr e ↦ rw e (q, reclaim-TaskOk workers tasks h)
]

-- The ids that it puts in the queue are keys.
reclaim_ids :
    (P : String → Type 0) (workers : Assoc Worker) (tasks : Assoc Task)
    → All TaskOk tasks
    → All P (keys tasks)
    → All P (reclaim workers tasks).1
unfolding reclaim
reclaim_ids P workers [] h g = tt
reclaim_ids P workers ((k, t) ∷ tasks) (q, h) (p, g) = elim (Bool-cases (orphaned workers t)) [
  | inl e ↦ rw e (rw q.0 p, reclaim_ids P workers tasks h g)
  | inr e ↦ rw e (reclaim_ids P workers tasks h g)
]

append-nil_of_length : (queue ids : List String) → ltb 0 (length ids) ≡ false → queue ++ ids ≡ queue
append-nil_of_length [] [] h = refl
append-nil_of_length (j ∷ queue) [] h = ap (◌∷◌ j) (append-nil_of_length queue [] h)
append-nil_of_length queue (i ∷ ids) h = absurd (ground arith)

pub rebalance_tasks-WellFormed : {p : Pool} → WellFormed p → WellFormed (rebalance_tasks p).1
unfolding rebalance_tasks
rebalance_tasks-WellFormed {p} v =
    let out = reclaim p.workers p.tasks in
    let same = reclaim-Agree p.workers p.tasks in
    let old_known = Agree-AllKnown out.0 p.tasks p.queue same v.known in
    let id_known =
      Agree-AllKnown out.0 p.tasks out.1 same
        (reclaim_ids (Known p.tasks) p.workers p.tasks v.tasks (All-Known-keys p.tasks)) in
    let known = All-append (Known out.0) p.queue out.1 old_known id_known in
    elim (Bool-cases (ltb 0 (length out.1))) [
      | inl some_moved ↦ rw some_moved (record {
        workers = v.workers;
        registered = v.registered;
        tasks = reclaim-TaskOk p.workers p.tasks v.tasks;
        known = sort_queue-AllKnown out.0 (p.queue ++ out.1) known;
        ordered = sort_queue-InOrder out.0 (p.queue ++ out.1);
      })
      | inr none_moved ↦ rw none_moved (record {
        workers = v.workers;
        registered = v.registered;
        tasks = reclaim-TaskOk p.workers p.tasks v.tasks;
        known = known;
        ordered =
            rw (append-nil_of_length p.queue out.1 none_moved)
              (Agree-InOrder out.0 p.tasks p.queue same v.ordered);
      })
    ]

release_ok :
    (stale : Bool) (t : Task) (workers : Assoc Worker)
    → All WorkerOk workers
    → All WorkerOk (release stale t workers)
release_ok true t workers h = All-at_worker dec_load (λ w. (refl, refl, refl)) t.worker_id workers h
release_ok false t workers h = h

release_keys :
    (stale : Bool) (t : Task) (workers : Assoc Worker)
    → Distinct (keys workers)
    → Distinct (keys (release stale t workers))
release_keys true t workers h =
    Distinct-keys-at_worker dec_load (λ w. (refl, refl, refl)) t.worker_id workers h
release_keys false t workers h = h

module _ (timeout_sec now : ℕ) where
  prune_stale_workers :
      (workers : Assoc Worker) (tasks : Assoc Task)
      → All WorkerOk workers
      → Distinct (keys workers)
      → All WorkerOk (prune_stale timeout_sec now workers tasks).0
        × Distinct (keys (prune_stale timeout_sec now workers tasks).0)
  unfolding prune_stale
  prune_stale_workers workers [] h d = (h, d)
  prune_stale_workers workers ((k, t) ∷ tasks) h d =
      prune_stale_workers (release (is_stale timeout_sec now t) t workers) tasks
        (release_ok (is_stale timeout_sec now t) t workers h)
        (release_keys (is_stale timeout_sec now t) t workers d)

  prune_stale-TaskOk :
      (workers : Assoc Worker) (tasks : Assoc Task)
      → All TaskOk tasks
      → All TaskOk (prune_stale timeout_sec now workers tasks).1
  unfolding prune_stale
  prune_stale-TaskOk workers [] h = tt
  prune_stale-TaskOk workers ((k, t) ∷ tasks) (q, h) =
      let rest = prune_stale-TaskOk (release (is_stale timeout_sec now t) t workers) tasks h in
      elim (Bool-cases (is_stale timeout_sec now t)) [
        | inl e ↦ (rw e (q.0, refl), rest)
        | inr e ↦ (rw e q, rest)
      ]

  prune_stale-Agree :
      (workers : Assoc Worker) (tasks : Assoc Task)
      → Agree (prune_stale timeout_sec now workers tasks).1 tasks
  unfolding prune_stale lookup
  prune_stale-Agree workers [] id = (refl, refl)
  prune_stale-Agree workers ((k, t) ∷ tasks) id =
      let (h, q) = prune_stale-Agree (release (is_stale timeout_sec now t) t workers) tasks id in
      elim (Bool-cases (str_eq k id)) [
        | inl e ↦ (ground (arith), ground (arith))
        | inr e ↦ (rw e h, rw e q)
      ]

  pub prune_stale_tasks-WellFormed :
      {p : Pool} → WellFormed p → WellFormed (prune_stale_tasks timeout_sec now p).1
  unfolding prune_stale_tasks
  prune_stale_tasks-WellFormed {p} v =
      let out = prune_stale timeout_sec now p.workers p.tasks in
      let same = prune_stale-Agree p.workers p.tasks in
      let (ok, d) = prune_stale_workers p.workers p.tasks v.workers v.registered in
      record {
        workers = ok;
        registered = d;
        tasks = prune_stale-TaskOk p.workers p.tasks v.tasks;
        known = Agree-AllKnown out.1 p.tasks p.queue same v.known;
        ordered = Agree-InOrder out.1 p.tasks p.queue same v.ordered;
      }

  silence-WorkerOk :
      (workers : Assoc Worker)
      → All WorkerOk workers
      → All WorkerOk (silence timeout_sec now workers)
  unfolding silence
  silence-WorkerOk [] h = tt
  silence-WorkerOk ((k, w) ∷ workers) (q, h) = elim (Bool-cases (is_silent timeout_sec now w)) [
    | inl e ↦ (rw e q, silence-WorkerOk workers h)
    | inr e ↦ (rw e q, silence-WorkerOk workers h)
  ]

  keys-silence : (workers : Assoc Worker) → keys (silence timeout_sec now workers) ≡ keys workers
  unfolding silence
  keys-silence [] = refl
  keys-silence ((k, w) ∷ workers) = ap (◌∷◌ k) (keys-silence workers)

  pub prune_offline_workers-WellFormed :
      {p : Pool} → WellFormed p → WellFormed (prune_offline_workers timeout_sec now p).1
  unfolding prune_offline_workers
  prune_offline_workers-WellFormed {p} v =
      with_workers (silence timeout_sec now p.workers) v (silence-WorkerOk p.workers v.workers)
        (rw (keys-silence p.workers) v.registered)
