-- ===== src/Worker/Queue.antt =====
-- engine/internal/worker/distributed.go: what keeps the queue in order, and its ids among the tasks.
use mathlib.Core.Path.{fun_ext}
use casper_prover.Prelude.{
  String, some, List, [], ◌∷◌, ◌++◌, ◌≡◌, inl, inr, All, str_eq, eq_iff, Bool-cases, ℤ, arith,
}
use casper_prover.Prelude.Assoc.{Assoc, lookup, insert, lookup-insert}
use casper_prover.Prelude.Entries.{Known, Known-insert, Known-insert_self}
use casper_prover.Prelude.IntOrder.{Descending, AtMost, All-sort, sort-Descending}
use casper_prover.Worker.{Task}
use casper_prover.Worker.Tasks.{priority_of, before, sort_queue, remove_first}

-- The priority that the queue is ordered by.
abbrev pub priority_in : Assoc Task → String → ℤ
priority_in tasks id = priority_of (lookup id tasks)

-- Highest priority first.
abbrev pub InOrder : Assoc Task → List String → Type 0
InOrder tasks queue = Descending (priority_in tasks) queue

-- Every queued id is that of a task, so `sortQueue` finds no nil.
abbrev pub AllKnown : Assoc Task → List String → Type 0
AllKnown tasks queue = All (Known tasks) queue

pub sort_queue-InOrder :
    (tasks : Assoc Task) (queue : List String) → InOrder tasks (sort_queue tasks queue)
unfolding sort_queue
sort_queue-InOrder tasks queue = sort-Descending (priority_in tasks) queue

pub sort_queue-AllKnown :
    (tasks : Assoc Task) (queue : List String)
    → AllKnown tasks queue
    → AllKnown tasks (sort_queue tasks queue)
unfolding sort_queue
sort_queue-AllKnown tasks queue h = All-sort (Known tasks) (before tasks) queue h

pub All-remove_first {ℓ} :
    (P : String → Type ℓ) (id : String) (queue : List String)
    → All P queue
    → All P (remove_first id queue)
unfolding remove_first
All-remove_first P id [] h = tt
All-remove_first P id (j ∷ queue) (q, h) = elim (Bool-cases (str_eq j id)) [
  | inl e ↦ rw e h
  | inr e ↦ rw e (q, All-remove_first P id queue h)
]

pub remove_first-Descending :
    (measure : String → ℤ) (id : String) (queue : List String)
    → Descending measure queue
    → Descending measure (remove_first id queue)
unfolding remove_first
remove_first-Descending measure id [] d = tt
remove_first-Descending measure id (j ∷ queue) (b, d) = elim (Bool-cases (str_eq j id)) [
  | inl e ↦ rw e d
  | inr e ↦ rw e (
    All-remove_first (AtMost measure (measure j)) id queue b,
    remove_first-Descending measure id queue d,
  )
]

pub All-append {ℓ κ} :
    {A : Type ℓ} (P : A → Type κ) (xs ys : List A) → All P xs → All P ys → All P (xs ++ ys)
All-append P [] ys h g = g
All-append P (x ∷ xs) ys (q, h) g = (q, All-append P xs ys h g)

pub AllKnown-insert :
    (k : String) (t : Task) (tasks : Assoc Task) (queue : List String)
    → AllKnown tasks queue
    → AllKnown (insert k t tasks) queue
AllKnown-insert k t tasks [] h = tt
AllKnown-insert k t tasks (j ∷ queue) (q, h) =
    (Known-insert k j t tasks q, AllKnown-insert k t tasks queue h)

-- A task's id at the end of the queue.
pub AllKnown-insert_append :
    (k : String) (t : Task) (tasks : Assoc Task) (queue : List String)
    → AllKnown tasks queue
    → AllKnown (insert k t tasks) (queue ++ k ∷ [])
AllKnown-insert_append k t tasks queue h =
    let new = insert k t tasks in
    All-append (Known new) queue (k ∷ []) (AllKnown-insert k t tasks queue h)
      (Known-insert_self k t tasks, tt)

-- A change to a task that leaves its priority alone leaves every priority alone.
pub priority_in-insert :
    (k : String) (old new : Task) (tasks : Assoc Task)
    → lookup k tasks ≡ some old
    → new.priority ≡ old.priority
    → priority_in (insert k new tasks) ≡ priority_in tasks
priority_in-insert k old new tasks found same =
    fun_ext (λ j. ground (arith, lookup-insert k j new tasks, eq_iff k j))

pub InOrder-insert :
    (k : String) (old new : Task) (tasks : Assoc Task) (queue : List String)
    → lookup k tasks ≡ some old
    → new.priority ≡ old.priority
    → InOrder tasks queue
    → InOrder (insert k new tasks) queue
InOrder-insert k old new tasks queue found same h =
    rw (priority_in-insert k old new tasks found same) h
