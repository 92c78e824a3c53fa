-- ===== src/Idempotency/System.antt =====
-- engine/internal/api/idempotency.go: requests that interleave, and the cap on the stored responses.
use casper_prover.Prelude.{
  ℕ, zero, suc, ◌≤◌, String, false, ◌||◌, not, Option, none, some, List, [], ◌∷◌, ◌≡◌, refl, inl,
  inr, ◌++◌, get_elem?, str_eq, length, All, Bool-cases, arith,
}
use casper_prover.Merkle.Digest.{Sha256}
use casper_prover.Idempotency.{
  Store, Request, Response, Decision, handle, passthrough, bad_body, conflict, replay, is_mutating,
  max_entries, with_body, enter, leave,
}
use casper_prover.Idempotency.Bounded.{IsBounded, leave-IsBounded, enter-IsBounded}

-- The store, and the requests whose handler runs, each with its key and hash.
pub record System : Type 0 where
  pub store : Store
  pub running : List (String × List ℕ)

abbrev pub started : System
started = record { store = []; running = [] }

-- A request comes in, or the handler of a running one answers.
pub data Event : Type 0 where
  arrives : ℕ → Request → Event
  answers : ℕ → ℕ → Response → Event

abbrev pub joined : String → Decision → List (String × List ℕ) → List (String × List ℕ)
joined key (handle hash) running = running ++ (key, hash) ∷ []
joined key _ running = running

abbrev pub remove_at {ℓ} : {A : Type ℓ} → ℕ → List A → List A
remove_at i [] = []
remove_at zero (x ∷ xs) = xs
remove_at (suc i) (x ∷ xs) = x ∷ remove_at i xs

abbrev pub finished : ℕ → ℕ → Response → Option (String × List ℕ) → System → System
finished i now resp none s = s
finished i now resp (some (key, hash)) s = record {
  store = leave now key hash resp s.store;
  running = remove_at i s.running;
}

module _ (sha : Sha256) (text : String → List ℕ) where
  unfoldable pub step : Event → System → System
  step (arrives now r) s =
      let (decision, store) = enter sha text now r s.store in
      record { store = store; running = joined r.key decision s.running }
  step (answers i now resp) s = finished i now resp (get_elem? s.running i) s

  unfoldable pub run : List Event → System → System
  unfolding step
  run [] s = s
  run (e ∷ events) s = run events (step e s)

  abbrev Named : String × List ℕ → Type 0
  Named f = str_eq f.0 "" ≡ false

  -- A request is handled only with a key.
  joined-Named :
      (now : ℕ) (r : Request) (items : Store) (running : List (String × List ℕ))
      → All Named running
      → All Named (joined r.key (enter sha text now r items).0 running)
  unfolding enter
  joined-Named now r items running h =
      elim (Bool-cases (not (is_mutating r.method) || str_eq r.key "")) [
        | inl x ↦ rw x h
        | inr x ↦ rw x (keyed (with_body sha text now r r.body items).0 (ground arith))
      ]
    where
      at_end :
          (xs : List (String × List ℕ)) (f : String × List ℕ)
          → All Named xs
          → Named f
          → All Named (xs ++ f ∷ [])
      at_end [] f g n = (n, tt)
      at_end (x ∷ xs) f (q, g) n = (q, at_end xs f g n)

      keyed : (d : Decision) → str_eq r.key "" ≡ false → All Named (joined r.key d running)
      keyed (handle hash) n = at_end running (r.key, hash) h n
      keyed passthrough n = h
      keyed bad_body n = h
      keyed conflict n = h
      keyed (replay resp) n = h

  get_elem?-Named :
      (i : ℕ) (running : List (String × List ℕ)) (f : String × List ℕ)
      → All Named running
      → get_elem? running i ≡ some f
      → Named f
  get_elem?-Named i [] f h e = cc
  get_elem?-Named zero (x ∷ xs) f (q, h) e = let same : x ≡ f = ground arith in rw (← same) q
  get_elem?-Named (suc i) (x ∷ xs) f (q, h) e = get_elem?-Named i xs f h e

  remove_at-Named :
      (i : ℕ) (running : List (String × List ℕ))
      → All Named running
      → All Named (remove_at i running)
  remove_at-Named zero [] h = tt
  remove_at-Named (suc i) [] h = tt
  remove_at-Named zero (x ∷ xs) (q, h) = h
  remove_at-Named (suc i) (x ∷ xs) (q, h) = (q, remove_at-Named i xs h)

  finished-IsBounded :
      (i now : ℕ) (resp : Response) (s : System) (o : Option (String × List ℕ))
      → get_elem? s.running i ≡ o
      → IsBounded s.store
      → All Named s.running
      → IsBounded (finished i now resp o s).store × All Named (finished i now resp o s).running
  finished-IsBounded i now resp s none e v h = (v, h)
  finished-IsBounded i now resp s (some (key, hash)) e v h = (
    leave-IsBounded now key hash resp s.store (get_elem?-Named i s.running (key, hash) h e) v,
    remove_at-Named i s.running h,
  )

  run_from :
      (events : List Event) (s : System)
      → IsBounded s.store
      → All Named s.running
      → IsBounded (run events s).store
  unfolding run
  run_from [] s v h = v
  run_from (arrives now r ∷ events) s v h =
      run_from events (step (arrives now r) s) (enter-IsBounded sha text now r s.store v)
        (joined-Named now r s.store s.running h)
  run_from (answers i now resp ∷ events) s v h =
      let (v', h') = finished-IsBounded i now resp s (get_elem? s.running i) refl v h in
      run_from events (step (answers i now resp) s) v' h'

  -- Under any interleaving of requests and of the answers to those that run, the store holds at most
  -- idempotencyMax entries.
  pub run-le : (events : List Event) → length (run events started).store ≤ max_entries
  run-le events = (run_from events started (record { size = omega arith; named = tt }) tt).size
