-- ===== src/Llm/Keys.antt =====
-- engine/internal/llm/keys.go: the ring of API keys of a provider, and errors.go: which answers rest
-- one. The clock is an argument; a zero `time.Time` is none. The cursor is the number of draws.
use casper_prover.Prelude.{
  ℕ, zero, suc, ◌+◌, ◌%◌, String, Bool, true, false, ◌||◌, not, Option, none, some, List, [], ◌∷◌,
  str_eq, ◌==◌, ltb, leb, if◌then◌else◌, ℤ, pos, negsuc, Outcome, ok, err, length, get_or, set,
  replicate, select,
}

pub record KeyRing : Type 0 where
  pub keys : List String
  pub next : ℕ
  pub cooldown : ℕ
  pub resting_until : List (Option ℕ)

pub data Error : Type 0 where
  all_keys_cooling no_keys : Error

-- `NewKeyRing`
unfoldable pub new_key_ring : List String → ℕ → KeyRing
new_key_ring keys cooldown =
    let filtered = select (λ k. not (str_eq k "")) keys in
    record {
      keys = filtered;
      next = 0;
      cooldown = cooldown;
      resting_until = replicate (length filtered) none;
    }

-- r.restingUntil[idx].IsZero() || now.After(r.restingUntil[idx])
abbrev pub rested : ℕ → Option ℕ → Bool
rested now none = true
rested now (some until) = ltb until now

abbrev pub slot_rested : KeyRing → ℕ → ℕ → Bool
slot_rested r now cursor = rested now (get_or r.resting_until (cursor % length r.keys) none)

-- The loop of `Next`, with the slots left to look at: the slot, and the cursor after it.
unfoldable pub walk : KeyRing → ℕ → ℕ → ℕ → Option ℕ × ℕ
walk r now zero cursor = (none, cursor)
walk r now (suc left) cursor =
    let rest = walk r now left (cursor + 1) in
    if slot_rested r now cursor then (some (cursor % length r.keys), cursor + 1) else rest

abbrev pub drawn : KeyRing → Option ℕ × ℕ → Outcome Error (String × ℕ) × KeyRing
drawn r (none, cursor) = (err all_keys_cooling, record r { next = cursor })
drawn r (some idx, cursor) = (ok (get_or r.keys idx "", idx), record r { next = cursor })

-- `Next`
unfoldable pub next : ℕ → KeyRing → Outcome Error (String × ℕ) × KeyRing
unfolding walk
next now r =
    if length r.keys == 0 then (err no_keys, r) else drawn r (walk r now (length r.keys) r.next)

-- `Rest`
unfoldable pub rest : ℤ → ℕ → KeyRing → KeyRing
rest (negsuc n) now r = r
rest (pos index) now r =
    if r.cooldown == 0 || leb (length r.resting_until) index
    then r
    else record r { resting_until = set r.resting_until index (some (now + r.cooldown)) }

pub record KeyStatus : Type 0 where
  pub index : ℕ
  pub resting : Bool
  pub resting_until : Option ℕ

abbrev pub status_at : ℕ → ℕ → Option ℕ → KeyStatus
status_at now i none = record { index = i; resting = false; resting_until = none }
status_at now i (some until) =
    if ltb now until
    then record { index = i; resting = true; resting_until = some until }
    else record { index = i; resting = false; resting_until = none }

unfoldable pub statuses : ℕ → ℕ → List (Option ℕ) → List KeyStatus
statuses now i [] = []
statuses now i (t ∷ ts) = status_at now i t ∷ statuses now (suc i) ts

-- `HealthSnapshot`
unfoldable pub health_snapshot : ℕ → KeyRing → List KeyStatus
unfolding statuses
health_snapshot now r = statuses now 0 r.resting_until

-- `isRateLimitStatus`: 429 and 402. `isAuthFailure`: 401 and 403.
abbrev pub is_rate_limit_status : ℕ → Bool
is_rate_limit_status code = code == 429 || code == 402

abbrev pub is_auth_failure : ℕ → Bool
is_auth_failure code = code == 401 || code == 403

-- `parseRetryAfter` in seconds, on what strconv.Atoi makes of the trimmed header.
abbrev pub parse_retry_after : Option ℤ → ℕ
parse_retry_after (some (pos secs)) = if ltb 300 secs then 300 else secs
parse_retry_after _ = 0
