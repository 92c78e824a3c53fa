-- ===== src/Examples/Pools.antt =====
-- Runs of the worker pool on small inputs.
use casper_prover.Prelude.{
  ◌≡◌, false, List, [], ◌∷◌, ◌++◌, String, some, none, refl, All, pos, dec, ℤ,
}
use casper_prover.Prelude.Assoc.{lookup, insert, values}
use casper_prover.Prelude.Sort.{sort}
use casper_prover.Worker.{
  Worker, idle, Task, TaskResult, Pool, new_pool, register_worker, inc_load, select_worker,
}
use casper_prover.Worker.Tasks.{
  new_task, submit_task, assign_task, assign_to, complete_task, credit, remove_first, sort_queue,
}
use casper_prover.Worker.Upkeep.{orphaned, rebalance_tasks}
use casper_prover.Worker.Invariant.{WellFormed}
use casper_prover.Worker.History.{Call, run, call, run-WellFormed}
use casper_prover.Worker.Selection.{Least, assign_task-select_worker}
use casper_prover.Worker.Accounting.{complete_task-complete_task, rebalance_tasks-none_orphaned}

abbrev two_workers : List Call
two_workers =
    Call.register "w1" "a" (pos 2) 0
    ∷ Call.register "w2" "b" (pos 1) 0
    ∷ Call.submit "t1" "agent" [] [] [] "risk" (pos 1) 5
    ∷ Call.submit "t2" "agent" [] [] [] "risk" (pos 7) 6
    ∷ []

abbrev busy_calls : List Call
busy_calls = two_workers ++ Call.assign "t2" "w1" 8 ∷ []

abbrev busy_pool : Pool
busy_pool = run busy_calls new_pool

run-WellFormed_example :
    WellFormed (run (busy_calls ++ Call.fail "t2" "crash" ∷ Call.rebalance ∷ []) new_pool)
run-WellFormed_example = run-WellFormed (busy_calls ++ Call.fail "t2" "crash" ∷ Call.rebalance ∷ [])

abbrev fresh : String → String → ℤ → Worker
fresh id addr max_load = record {
  id = id;
  addr = addr;
  status = idle;
  load = pos 0;
  max_load = max_load;
  last_heartbeat = 0;
  proofs_generated = 0;
  avg_gen_ms = 0;
  failures = 0;
  current_tasks = 0;
}

abbrev first_task : Task
first_task = new_task "t1" "agent" [] [] [] "risk" (pos 1) 5

abbrev second_task : Task
second_task = new_task "t2" "agent" [] [] [] "risk" (pos 7) 6

chosen : select_worker busy_pool ≡ some (fresh "w2" "b" (pos 1))
unfolding select_worker run call register_worker submit_task assign_task insert lookup sort_queue
    sort remove_first
chosen = refl

highest_first : (run two_workers new_pool).queue ≡ "t2" ∷ "t1" ∷ []
unfolding run call register_worker submit_task insert lookup sort_queue sort
highest_first = refl

waiting : lookup "t1" busy_pool.tasks ≡ some first_task
unfolding run call register_worker submit_task assign_task insert lookup sort_queue sort
    remove_first
waiting = refl

assign_task-select_worker_example :
    All (Least (fresh "w2" "b" (pos 1))) (values busy_pool.workers)
    × (assign_task "t1" "w2" 9 busy_pool ≡ (
      none,
      record {
        workers = insert "w2" (inc_load (fresh "w2" "b" (pos 1))) busy_pool.workers;
        tasks = insert "t1" (assign_to "w2" 9 first_task) busy_pool.tasks;
        queue = remove_first "t1" busy_pool.queue;
      },
    ))
assign_task-select_worker_example =
    assign_task-select_worker busy_calls (fresh "w2" "b" (pos 1)) "t1" first_task 9 chosen waiting

abbrev given : Task
given = assign_to "w1" 8 second_task

abbrev loaded : Worker
loaded = inc_load (fresh "w1" "a" (pos 2))

in_work : lookup "t2" busy_pool.tasks ≡ some given
unfolding run call register_worker submit_task assign_task insert lookup sort_queue sort
    remove_first
in_work = refl

at_work : lookup "w1" busy_pool.workers ≡ some loaded
unfolding run call register_worker submit_task assign_task insert lookup sort_queue sort
    remove_first
at_work = refl

abbrev outcome : TaskResult
outcome = record { proof_id = "p"; gen_ms = 40 }

completed_twice :
    ((complete_task "t2" outcome 12 (complete_task "t2" outcome 11 busy_pool).1).0 ≡ none)
    × (lookup "w1"
          (complete_task "t2" outcome 12 (complete_task "t2" outcome 11 busy_pool).1).1.workers
        ≡ some (credit 40 (credit 40 loaded)))
    × ((credit 40 (credit 40 loaded)).load ≡ dec (dec (pos 1)))
completed_twice =
    complete_task-complete_task busy_pool "t2" outcome outcome 11 12 given loaded in_work at_work

rebalance_tasks-none_orphaned_example :
    All (λ t. orphaned busy_pool.workers t ≡ false) (values (rebalance_tasks busy_pool).1.tasks)
    × ((rebalance_tasks busy_pool).1.workers ≡ busy_pool.workers)
rebalance_tasks-none_orphaned_example = rebalance_tasks-none_orphaned busy_pool
