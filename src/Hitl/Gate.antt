-- ===== src/Hitl/Gate.antt =====
-- engine/internal/hitl/hitl.go: what `Decide` answers, and what it leaves in the ticket store.
use mathlib.Core.Path.{subst}
use casper_prover.Prelude.{
  err, ok, ℕ, String, false, none, ◌≡◌, ◌≢◌, ◌↔◌, ◌⊎◌, arith, refl, str_eq, Bool-cases, inl, inr,
  eq_iff, eq_refl, Option-cases,
}
use casper_prover.Prelude.Assoc.{lookup, insert, lookup-insert}
use casper_prover.Prelude.Float.{Floats}
use casper_prover.Attest.{DecisionCommit}
use casper_prover.Hitl.{
  pass, escalate, Policy, Response, no_trigger, Ticket, Tickets, Result, create, get, open_ticket,
  decide, weigh, low, hard_veto, escalating, non_critical_approve_confidence, respond, Explanation,
}

differ : (id k : String) → k ≢ id → str_eq id k ≡ false
differ id k h = ground (arith, eq_iff id k)

get_same : {F : Type 0} (id : String) (t : Ticket F) (s : Tickets F) → get id (insert id t s) ≡ ok t
unfolding get
get_same id t s = ground (arith, lookup-insert id id t s, eq_refl id)

get_other :
    {F : Type 0} (id k : String) (t : Ticket F) (s : Tickets F)
    → k ≢ id
    → get k (insert id t s) ≡ get k s
unfolding get
get_other id k t s h = ground (arith, lookup-insert id k t s, differ id k h)

module _ (fl : Floats) (policy : Policy fl.F) where
  open fl use {F}

  -- What an answer promises about the map.
  abbrev Promise : DecisionCommit F → String → Tickets F → Result (Response F) × Tickets F → Type 0
  Promise commit id s (err e, after) = after ≡ s
  Promise commit id s (ok r, after) =
      ((r.action ≢ escalate) × (after ≡ s))
      ⊎ ((r.action ≡ escalate)
          × (r.ticket_id ≡ id)
          × (lookup id s ≡ none)
          × ((t : Ticket F) × (get id after ≡ ok t)
              × (t.state ≡ "pending")
              × (t.decision_id ≡ commit.decision_id)
              × (t.reason ≡ r.reason))
          × ((k : String) → k ≢ id → get k after ≡ get k s))

  open_ticket-Promise :
      (commit : DecisionCommit F) (why : Explanation F) (id : String) (now : ℕ) (s : Tickets F)
      → Promise commit id s (respond fl (open_ticket fl commit why id now s))
  unfolding open_ticket create get
  open_ticket-Promise commit why id now s = elim (Bool-cases (str_eq id "")) [
    | inl e ↦ rw e refl
    | inr e ↦ elim (Option-cases (lookup id s)) [
      | inr (u, q) ↦ rw (e, q) refl
      | inl q ↦
          rw (e, q)
            (inr
              (refl, refl, q, (_, get_same id _ s, refl, refl, refl), λ k h. get_other id k _ s h))
    ]
  ]

  weigh-Promise :
      (commit : DecisionCommit F) (id : String) (now : ℕ) (s : Tickets F)
      → Promise commit id s (weigh fl policy commit id now s)
  unfolding weigh
  weigh-Promise commit id now s =
      elim (Bool-cases (low fl policy (non_critical_approve_confidence fl commit.facet_verdicts))) [
        | inl e ↦ rw e (open_ticket-Promise commit _ id now s)
        | inr e ↦ rw e (inl (cc, refl))
      ]

  decide-Promise :
      (commit : DecisionCommit F) (id : String) (now : ℕ) (s : Tickets F)
      → Promise commit id s (decide fl policy commit id now s)
  unfolding decide
  decide-Promise commit id now s = elim (Bool-cases (hard_veto fl policy commit)) [
    | inl e ↦ rw e (inl (cc, refl))
    | inr e ↦ elim (Option-cases (escalating fl policy commit.facet_verdicts)) [
      | inr (v, q) ↦ rw (e, q) (open_ticket-Promise commit _ id now s)
      | inl q ↦ rw (e, q) (weigh-Promise commit id now s)
    ]
  ]

  -- When `Decide` answers ESCALATE, the answer names a new pending ticket for this decision, which
  -- the store then holds, and no other ticket has changed.
  pub escalated_pending :
      (commit : DecisionCommit F) (id : String) (now : ℕ) (s : Tickets F) (r : Response F)
      (after : Tickets F)
      → decide fl policy commit id now s ≡ (ok r, after)
      → r.action ≡ escalate
      → (r.ticket_id ≡ id)
        × (lookup id s ≡ none)
        × ((t : Ticket F) × (get id after ≡ ok t)
            × (t.state ≡ "pending")
            × (t.decision_id ≡ commit.decision_id)
            × (t.reason ≡ r.reason))
        × ((k : String) → k ≢ id → get k after ≡ get k s)
  escalated_pending commit id now s r after h e =
      elim (subst (Promise commit id s) h (decide-Promise commit id now s)) [
        | inl (n, _) ↦ absurd (n e)
        | inr (_, i, f, p, o) ↦ (i, f, p, o)
      ]

  -- `Decide` answers PASS exactly when no critical REJECT vetoes, no critical ABSTAIN escalates and
  -- the mean confidence is not low; the verdict of the aggregate alone never holds a commit back.
  pub pass_exactly :
      (commit : DecisionCommit F) (id : String) (now : ℕ) (s : Tickets F)
      → (decide fl policy commit id now s
          ≡ (ok (record { action = pass; reason = no_trigger; ticket_id = "" }), s))
        ↔ ((hard_veto fl policy commit ≡ false)
            × (escalating fl policy commit.facet_verdicts ≡ none)
            × (low fl policy (non_critical_approve_confidence fl commit.facet_verdicts) ≡ false))
  unfolding decide weigh open_ticket create
  pass_exactly commit id now s = ground arith
