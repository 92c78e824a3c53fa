-- ===== src/Hitl.antt =====
-- engine/internal/hitl/hitl.go: the policy that passes, escalates or vetoes a decision commit, and
-- the in-memory store of the tickets it opens. The clock, the id generator and the order in which
-- Go walks the map are inputs. A zero `time.Time` is `none`; a formatted reason is its data.
pub mod Gate
pub mod Lifecycle
pub mod Veto
use casper_prover.Prelude.{
  Outcome, ok, err, ℕ, zero, suc, ◌+◌, String, Bool, true, false, ◌&&◌, ◌||◌, not, Option, none,
  some, List, [], ◌∷◌, ltb, ◌==◌, str_eq, if◌then◌else◌, length, select, take, find?,
}
use casper_prover.Prelude.Assoc.{Assoc, lookup, insert, values}
use casper_prover.Prelude.Sort.{sort, str_ltb}
use casper_prover.Prelude.Float.{Floats}
use casper_prover.Attest.{
  Verdict, unknown, approve, abstain, reject, is_approve, is_reject, Reason, FacetVerdict,
  DecisionCommit,
}

pub data Action : Type 0 where
  pass escalate veto : Action

pub record Policy (F : Type 0) : Type 0 where
  pub confidence_threshold : F
  pub escalate_on_critical_abstain : Bool
  pub veto_on_critical_reject : Bool

pub data Explanation (F : Type 0) : Type 0 where
  -- no text, as in the zero `Response`
  nothing : Explanation F
  vetoed : String → Reason → Explanation F
  critical_abstained : String → Reason → Explanation F
  low_confidence : F → F → Explanation F
  no_trigger : Explanation F

pub record Response (F : Type 0) : Type 0 where
  pub action : Action
  pub reason : Explanation F
  pub ticket_id : String

pub record Ticket (F : Type 0) : Type 0 where
  pub id : String
  pub decision_id : String
  pub submitter : String
  pub spec_id : String
  pub opened_at : ℕ
  pub resolved_at : Option ℕ
  pub reason : Explanation F
  pub aggregate : String
  pub vetoed_by : String
  pub state : String
  pub resolver : String
  pub resolution_note : String

pub record ListFilter : Type 0 where
  pub state : String
  pub limit : ℕ
  pub opened_after : Option ℕ

pub data Error : Type 0 where
  empty_id : Error
  already_exists : String → Error
  ticket_not_found : Error
  already_resolved : Error
  invalid_state : Error

-- `Verdict.String`
abbrev pub verdict_string : Verdict → String
verdict_string unknown = "UNKNOWN"
verdict_string approve = "APPROVE"
verdict_string abstain = "ABSTAIN"
verdict_string reject = "REJECT"

-- `validResolutionState`
abbrev pub valid_resolution_state : String → Bool
valid_resolution_state s = str_eq s "approved" || str_eq s "rejected" || str_eq s "stale_escalation"

-- `isCriticalKind`
abbrev pub is_critical_kind : String → Bool
is_critical_kind k = str_eq k "safety" || str_eq k "equivocation"

abbrev pub is_abstain : Verdict → Bool
is_abstain abstain = true
is_abstain _ = false

abbrev pub Result {ℓ} : Type ℓ → Type ℓ
Result A = Outcome Error A

-- The map of `InMemoryTicketStore`.
abbrev pub Tickets : Type 0 → Type 0
Tickets F = Assoc (Ticket F)

abbrev pub opened_in_time : Option ℕ → ℕ → Bool
opened_in_time none opened_at = true
opened_in_time (some after) opened_at = not (ltb opened_at after)

module _ {F : Type 0} where
  -- `Create`: the error, and the map after the call.
  unfoldable pub create : Ticket F → Tickets F → Option Error × Tickets F
  create t s = if str_eq t.id "" then (some empty_id, s) else (elim (lookup t.id s) [
    | some _ ↦ (some (already_exists t.id), s)
    | none ↦ (none, insert t.id t s)
  ])

  -- `Get`
  unfoldable pub get : String → Tickets F → Result (Ticket F)
  get id s = elim (lookup id s) [ none ↦ err ticket_not_found | some t ↦ ok t ]

  -- What `Resolve` makes of the ticket.
  abbrev pub resolved : String → String → String → ℕ → Ticket F → Ticket F
  resolved resolver state note now t = record t {
    state = state;
    resolver = resolver;
    resolution_note = note;
    resolved_at = some now;
  }

  -- `Resolve`, at the clock's `now`.
  unfoldable pub resolve :
      String → String → String → String → ℕ → Tickets F → Result (Ticket F) × Tickets F
  resolve id resolver state note now s =
      if valid_resolution_state state
      then (elim (lookup id s) [
        | none ↦ (err ticket_not_found, s)
        | some t ↦
            if str_eq t.state "pending"
            then (
              ok (resolved resolver state note now t),
              insert id (resolved resolver state note now t) s,
            )
            else (err already_resolved, s)
      ])
      else (err invalid_state, s)

  -- The two tests of the loop of `List`.
  abbrev pub listed : ListFilter → Ticket F → Bool
  listed filter t =
      (str_eq filter.state "" || str_eq t.state filter.state)
      && opened_in_time filter.opened_after t.opened_at

  -- Newest first, then by id.
  abbrev pub newer : Ticket F → Ticket F → Bool
  newer t u = if t.opened_at == u.opened_at then str_ltb t.id u.id else ltb u.opened_at t.opened_at

  abbrev pub limited : ℕ → List (Ticket F) → List (Ticket F)
  limited limit ts = if ltb 0 limit && ltb limit (length ts) then take limit ts else ts

  -- `List`
  unfoldable pub list : ListFilter → Tickets F → List (Ticket F)
  list filter s = limited filter.limit (sort newer (select (listed filter) (values s)))

module _ (fl : Floats) where
  open fl use {F, add, div_nat, less}

  abbrev pub opened : Ticket F → Option Error × Tickets F → Result (Ticket F) × Tickets F
  opened t (some e, after) = (err e, after)
  opened t (none, after) = (ok t, after)

  -- `openTicket`, with the id and the time that the service draws.
  unfoldable pub open_ticket :
      DecisionCommit F → Explanation F → String → ℕ → Tickets F → Result (Ticket F) × Tickets F
  open_ticket commit reason id now s =
      let t : Ticket F = record {
        id = id;
        decision_id = commit.decision_id;
        submitter = commit.decision.submitter;
        spec_id = commit.decision.spec_id;
        opened_at = now;
        resolved_at = none;
        reason = reason;
        aggregate = verdict_string commit.aggregate;
        vetoed_by = commit.vetoed_by;
        state = "pending";
        resolver = "";
        resolution_note = "";
      } in
      opened t (create t s)

  abbrev pub approves_softly : FacetVerdict F → Bool
  approves_softly v = not (is_critical_kind v.kind) && is_approve v.verdict

  -- The loop of `nonCriticalApproveConfidence`: the sum and the count.
  unfoldable pub sum_confidence : F → ℕ → List (FacetVerdict F) → F × ℕ
  sum_confidence sum n [] = (sum, n)
  sum_confidence sum n (v ∷ vs) =
      if approves_softly v
      then sum_confidence (add sum v.confidence) (suc n) vs
      else sum_confidence sum n vs

  abbrev pub mean : F × ℕ → F × ℕ
  mean (sum, n) = if n == 0 then (fl.zero, 0) else (div_nat sum n, n)

  -- `nonCriticalApproveConfidence`
  unfoldable pub non_critical_approve_confidence : List (FacetVerdict F) → F × ℕ
  unfolding sum_confidence
  non_critical_approve_confidence vs = mean (sum_confidence fl.zero 0 vs)

  abbrev pub critical_abstains : FacetVerdict F → Bool
  critical_abstains v = is_critical_kind v.kind && is_abstain v.verdict

  -- The facet at which the loop of step 2 opens a ticket.
  abbrev pub escalating : Policy F → List (FacetVerdict F) → Option (FacetVerdict F)
  escalating policy vs =
      if policy.escalate_on_critical_abstain then find? critical_abstains vs else none

  -- What `Decide` returns after `openTicket`.
  abbrev pub respond : Result (Ticket F) × Tickets F → Result (Response F) × Tickets F
  respond (err e, s) = (err e, s)
  respond (ok t, s) = (ok (record { action = escalate; reason = t.reason; ticket_id = t.id }), s)

  abbrev pub low : Policy F → F × ℕ → Bool
  low policy (mean, n) = ltb 0 n && less mean policy.confidence_threshold

  -- Steps 3 and 4.
  unfoldable pub weigh :
      Policy F → DecisionCommit F → String → ℕ → Tickets F → Result (Response F) × Tickets F
  weigh policy commit id now s =
      let m = non_critical_approve_confidence commit.facet_verdicts in
      if low policy m
      then respond (open_ticket commit (low_confidence m.0 policy.confidence_threshold) id now s)
      else (ok (record { action = pass; reason = no_trigger; ticket_id = "" }), s)

  abbrev pub hard_veto : Policy F → DecisionCommit F → Bool
  hard_veto policy commit =
      policy.veto_on_critical_reject
      && is_reject commit.aggregate
      && not (str_eq commit.vetoed_by "")

  -- `Decide`
  unfoldable pub decide :
      Policy F → DecisionCommit F → String → ℕ → Tickets F → Result (Response F) × Tickets F
  decide policy commit id now s =
      if hard_veto policy commit
      then (
        ok (record {
          action = veto;
          reason = vetoed commit.vetoed_by commit.abstain_reason;
          ticket_id = "";
        }),
        s,
      )
      else (elim (escalating policy commit.facet_verdicts) [
        | some v ↦ respond (open_ticket commit (critical_abstained v.kind v.reason) id now s)
        | none ↦ weigh policy commit id now s
      ])
