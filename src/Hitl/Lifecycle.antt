-- ===== src/Hitl/Lifecycle.antt =====
-- engine/internal/hitl/hitl.go: a ticket's life under any sequence of calls to the store.
use mathlib.Core.Path.{subst}
use casper_prover.Prelude.{
  err, ok, ℕ, String, true, false, some, List, [], ◌∷◌, ◌≡◌, ◌≢◌, ◌⊎◌, arith, refl, str_eq,
  if◌then◌else◌, Bool-cases, inl, inr, eq_iff, eq_refl, Option-cases, sym, ap, ◌∙◌,
}
use casper_prover.Prelude.Assoc.{lookup, insert, lookup-insert}
use casper_prover.Hitl.{
  Ticket, Tickets, create, resolve, resolved, valid_resolution_state, already_resolved,
  invalid_state, Error,
}

-- A call that changes the map.
pub data Call (F : Type 0) : Type 0 where
  create_call : Ticket F → Call F
  -- id, resolver, state, note and the clock
  resolve_call : String → String → String → String → ℕ → Call F

true_is_false_absurd : true ≢ false
true_is_false_absurd h = cc

settled : (s : String) → valid_resolution_state s ≡ true → str_eq s "pending" ≡ false
settled s h = elim (Bool-cases (str_eq s "pending")) [
  | inr e ↦ e
  | inl e ↦ cc (subst (λ w. valid_resolution_state w ≡ true) ((eq_iff s "pending").0 e) h)
]

-- The error of a call on a ticket that is no longer pending.
abbrev pub refusal : String → Error
refusal state = if valid_resolution_state state then already_resolved else invalid_state

module _ {F : Type 0} where
  abbrev pub step : Call F → Tickets F → Tickets F
  step (create_call t) s = (create t s).1
  step (resolve_call id resolver state note now) s = (resolve id resolver state note now s).1

  unfoldable pub run : List (Call F) → Tickets F → Tickets F
  run [] s = s
  run (c ∷ cs) s = run cs (step c s)

  -- What no call takes away from a ticket: the fields of its opening, and its resolution.
  abbrev pub Later : Ticket F → Ticket F → Type 0
  Later t u =
      (u.id ≡ t.id)
      × (u.decision_id ≡ t.decision_id)
      × (u.opened_at ≡ t.opened_at)
      × (u.reason ≡ t.reason)
      × ((u.state ≡ t.state) ⊎ (valid_resolution_state u.state ≡ true))
      × (t.state ≢ "pending" → u ≡ t)

  Later-refl : (t : Ticket F) → Later t t
  Later-refl t = (refl, refl, refl, refl, inl refl, λ h. refl)

  create-keeps :
      (v : Ticket F) (s : Tickets F) (id : String) (t : Ticket F)
      → lookup id s ≡ some t
      → lookup id (create v s).1 ≡ some t
  unfolding create
  create-keeps v s id t h = ground (arith, lookup-insert v.id id v s, eq_iff v.id id)

  resolve-keeps :
      (k resolver state note : String) (now : ℕ) (s : Tickets F) (id : String) (t : Ticket F)
      → lookup id s ≡ some t
      → (lookup id (resolve k resolver state note now s).1 ≡ some t)
        ⊎ ((t.state ≡ "pending")
            × (valid_resolution_state state ≡ true)
            × (lookup id (resolve k resolver state note now s).1
                ≡ some (resolved resolver state note now t)))
  unfolding resolve
  resolve-keeps k resolver state note now s id t h =
      elim (Bool-cases (valid_resolution_state state)) [
        | inr e ↦ inl (rw e h)
        | inl e ↦ elim (Option-cases (lookup k s)) [
          | inl q ↦ inl (rw (e, q) h)
          | inr (u, q) ↦ elim (Bool-cases (str_eq u.state "pending")) [
            | inr p ↦ inl (rw (e, q, p) h)
            | inl p ↦
                rw (e, q, p)
                  (elim (overwritten u q p e) [ inl a ↦ inl a | inr (a, _, c) ↦ inr (a, refl, c) ])
          ]
        ]
      ]
    where
      overwritten :
          (u : Ticket F)
          → lookup k s ≡ some u
          → str_eq u.state "pending" ≡ true
          → valid_resolution_state state ≡ true
          → (lookup id (insert k (resolved resolver state note now u) s) ≡ some t)
            ⊎ ((t.state ≡ "pending")
                × (valid_resolution_state state ≡ true)
                × (lookup id (insert k (resolved resolver state note now u) s)
                    ≡ some (resolved resolver state note now t)))
      overwritten u q p e = elim (Bool-cases (str_eq k id)) [
        | inr n ↦ inl (lookup-insert k id _ s ∙ rw n h)
        | inl y ↦
            let same : k ≡ id = (eq_iff k id).0 y in
            let one : u ≡ t = cc in
            inr (
              ap (λ (w : Ticket F). w.state) (sym one) ∙ (eq_iff u.state "pending").0 p,
              e,
              lookup-insert k id _ s ∙ rw (y, one) refl,
            )
      ]

  Later-step :
      (c : Call F) (s : Tickets F) (id : String) (t : Ticket F)
      → lookup id s ≡ some t
      → (u : Ticket F) × (lookup id (step c s) ≡ some u) × Later t u
  Later-step (create_call v) s id t h = (t, create-keeps v s id t h, Later-refl t)
  Later-step (resolve_call k resolver state note now) s id t h =
      elim (resolve-keeps k resolver state note now s id t h) [
        | inl q ↦ (t, q, Later-refl t)
        | inr (p, e, q) ↦ (
          resolved resolver state note now t,
          q,
          (refl, refl, refl, refl, inr e, λ n. absurd (n p)),
        )
      ]

  Later-trans : (t u v : Ticket F) → Later t u → Later u v → Later t v
  Later-trans t u v (i, d, o, r, s, p) (i', d', o', r', s', p') = (
    i' ∙ i,
    d' ∙ d,
    o' ∙ o,
    r' ∙ r,
    elim s' [ inr e ↦ inr e | inl e ↦ elim s [ inl f ↦ inl (e ∙ f) | inr f ↦ inr (rw e f) ] ],
    λ n. p' (λ q. n (ap (λ (w : Ticket F). w.state) (sym (p n)) ∙ q)) ∙ p n,
  )

  -- Through any calls, a ticket in the store stays under its id with the fields of its opening, its
  -- state changes to a valid resolution only, and once it is not pending nothing of it changes.
  pub tickets_endure :
      (cs : List (Call F)) (s : Tickets F) (id : String) (t : Ticket F)
      → lookup id s ≡ some t
      → (u : Ticket F) × (lookup id (run cs s) ≡ some u) × Later t u
  unfolding run
  tickets_endure [] s id t h = (t, h, Later-refl t)
  tickets_endure (c ∷ cs) s id t h =
      let (u, q, l) = Later-step c s id t h in
      let (v, r, m) = tickets_endure cs (step c s) id u q in (v, r, Later-trans t u v l m)

  resolve-ok :
      (k resolver state note : String) (now : ℕ) (s : Tickets F) (t : Ticket F)
      → (resolve k resolver state note now s).0 ≡ ok t
      → (lookup k (resolve k resolver state note now s).1 ≡ some t)
        × (valid_resolution_state t.state ≡ true)
  unfolding resolve
  resolve-ok k resolver state note now s t h = elim (Bool-cases (valid_resolution_state state)) [
    | inr e ↦ cc (rw e at h)
    | inl e ↦ elim (Option-cases (lookup k s)) [
      | inl q ↦ cc (rw (e, q) at h)
      | inr (u, q) ↦ elim (Bool-cases (str_eq u.state "pending")) [
        | inr p ↦ cc (rw (e, q, p) at h)
        | inl p ↦
            let same : resolved resolver state note now u ≡ t = cc (rw (e, q, p) at h) in
            (
              rw (e, q, p) (lookup-insert k k _ s ∙ rw (eq_refl k, same) refl),
              subst (λ (w : Ticket F). valid_resolution_state w.state ≡ true) same e,
            )
      ]
    ]
  ]

  resolve-settled :
      (k resolver state note : String) (now : ℕ) (s : Tickets F) (t : Ticket F)
      → lookup k s ≡ some t
      → str_eq t.state "pending" ≡ false
      → resolve k resolver state note now s ≡ (err (refusal state), s)
  unfolding resolve
  resolve-settled k resolver state note now s t h n =
      elim (Bool-cases (valid_resolution_state state)) [
        | inl e ↦ rw (e, h, n) refl
        | inr e ↦ rw e refl
      ]

  -- At most one `Resolve` of a ticket succeeds: after one that did, whatever other calls follow, any
  -- later `Resolve` of that ticket fails and changes nothing, with `ErrAlreadyResolved` if it asks for a valid state and
  -- with `ErrInvalidState` if not.
  pub resolved_once :
      (k resolver state note : String) (now : ℕ) (s : Tickets F) (t : Ticket F) (cs : List (Call F))
      (resolver' state' note' : String) (now' : ℕ)
      → (resolve k resolver state note now s).0 ≡ ok t
      → resolve k resolver' state' note' now' (run cs (resolve k resolver state note now s).1)
        ≡ (err (refusal state'), run cs (resolve k resolver state note now s).1)
  resolved_once k resolver state note now s t cs resolver' state' note' now' h =
      let (q, valid) = resolve-ok k resolver state note now s t h in
      let not_pending = settled t.state valid in
      let (u, r, (_, _, _, _, _, same)) = tickets_endure cs _ k t q in
      let is_t =
        same (λ p. true_is_false_absurd (sym ((eq_iff t.state "pending").1 p) ∙ not_pending)) in
      resolve-settled k resolver' state' note' now' _ t (r ∙ ap some is_t) not_pending
