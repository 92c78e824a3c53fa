-- ===== src/Examples/Requests.antt =====
-- Runs of the idempotency middleware on small inputs.
use casper_prover.Prelude.{
  ℕ, ◌≤◌, ◌≡◌, List, [], ◌∷◌, String, some, refl, length, arith, if◌then◌else◌,
}
use casper_prover.Hex.{bytes_eq}
use casper_prover.Idempotency.{
  Request, Response, hash_req, enter, leave, replay, conflict, max_entries,
}
use casper_prover.Idempotency.System.{Event, run, started, run-le}
use casper_prover.Idempotency.Replay.{enter-leave}
use casper_prover.Examples.{toy_sha}

abbrev no_text : String → List ℕ
no_text s = []

abbrev submit : Request
submit = record {
  method = "POST";
  path = 47 ∷ [];
  key = "k1";
  body = some (1 ∷ 2 ∷ []);
  other = "";
}

abbrev created : Response
created = record { status = 201; body = 9 ∷ []; content_type = "application/json" }

run-le_example :
    length
      (run toy_sha no_text
        (Event.arrives 1 submit ∷ Event.arrives 2 submit ∷ Event.answers 0 5 created ∷ [])
        started).store
    ≤ max_entries
run-le_example =
    run-le toy_sha no_text
      (Event.arrives 1 submit ∷ Event.arrives 2 submit ∷ Event.answers 0 5 created ∷ [])

abbrev first_hash : List ℕ
first_hash = hash_req toy_sha no_text "POST" (47 ∷ []) (1 ∷ 2 ∷ [])

enter-leave_example :
    (enter toy_sha no_text 60 submit (leave 5 "k1" first_hash created [])).0
    ≡ (if bytes_eq first_hash first_hash then replay created else conflict)
enter-leave_example =
    enter-leave toy_sha no_text 5 60 first_hash created submit (1 ∷ 2 ∷ []) [] refl (omega arith)
      refl refl
