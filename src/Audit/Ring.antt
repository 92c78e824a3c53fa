-- ===== src/Audit/Ring.antt =====
-- engine/internal/decision/audit.go: what the sink retains.
use casper_prover.Prelude.{
  held, among-append, Distinct-append, ℕ, zero, suc, ◌≤◌, ◌<◌, String, true, false, none, some,
  List, [], ◌∷◌, ◌++◌, ◌≡◌, arith, refl, sym, ap, ◌∙◌, ltb, str_eq, length, among, Distinct,
  Bool-cases, Option-cases, inl, inr, eq_iff, eq_refl, ℤ, pos, negsuc, length-append,
}
use casper_prover.Prelude.Assoc.{
  Assoc, lookup, insert, delete, lookup-insert, lookup-delete, lookup-nil,
}
use casper_prover.Audit.{Record, Sink, new_sink, evict, append, get}

-- The order and the map agree, and the sink is no larger than its bound.
abbrev pub Agree : Assoc Record → List String → Type 0
Agree records order = Distinct order × ((id : String) → held (lookup id records) ≡ among order id)

abbrev pub Retaining : Sink → Type 0
Retaining s = (0 < s.max) × (length s.order ≤ s.max) × Agree s.records s.order

stored :
    (rec : Record) (records : Assoc Record) (order : List String)
    → Agree records order
    → lookup rec.id records ≡ none
    → Agree (insert rec.id rec records) (order ++ rec.id ∷ [])
stored rec records order (d, agree) h =
    let new : among order rec.id ≡ false = sym (agree rec.id) ∙ ap held h in
    (
      Distinct-append order rec.id d new,
      λ j. ground (
        arith,
        lookup-insert rec.id j rec records,
        among-append order rec.id j,
        agree j,
        eq_iff rec.id j,
        eq_iff j rec.id,
      ),
    )

dropped :
    (records : Assoc Record) (oldest : String) (order : List String)
    → Agree records (oldest ∷ order)
    → Agree (delete oldest records) order
dropped records oldest order ((n, d), agree) = (
  d,
  λ j. ground (
    arith,
    lookup-delete oldest j records,
    agree j,
    eq_iff oldest j,
    eq_iff j oldest,
    among_same oldest j order n,
  ),
)
  where
    among_same :
        (x y : String) (ids : List String)
        → among ids x ≡ false
        → str_eq x y ≡ true
        → among ids y ≡ false
    among_same x y ids h e = let q : x ≡ y = (eq_iff x y).0 e in cc

evict-Retaining :
    (records : Assoc Record) (order : List String) (max : ℕ)
    → 0 < max
    → length order ≤ suc max
    → Agree records order
    → Retaining (evict records order max)
evict-Retaining records [] max p le a = (p, omega arith, a)
evict-Retaining records (x ∷ order) max p le a = elim (Bool-cases (ltb max (length (x ∷ order)))) [
  | inl e ↦ rw e (p, omega (arith, le), dropped records x order a)
  | inr e ↦ rw e (p, ground arith, a)
]

append-Retaining : (rec : Record) (s : Sink) → Retaining s → Retaining (append rec s).1
unfolding append
append-Retaining rec s (p, le, a) = elim (Option-cases (lookup rec.id s.records)) [
  | inr (r, q) ↦ rw (q, append) (p, le, a)
  | inl q ↦
      rw (q, append)
        (evict-Retaining (insert rec.id rec s.records) (s.order ++ rec.id ∷ []) s.max p
          (omega (arith, le, length-append s.order (rec.id ∷ [])))
          (stored rec s.records s.order a q))
]

-- `Append` of records in turn.
abbrev pub append_each : List Record → Sink → Sink
append_each [] s = s
append_each (rec ∷ recs) s = append_each recs (append rec s).1

each : (recs : List Record) (s : Sink) → Retaining s → Retaining (append_each recs s)
each [] s w = w
each (rec ∷ recs) s w = each recs (append rec s).1 (append-Retaining rec s w)

fresh : (max : ℤ) → Retaining (new_sink max)
fresh (pos zero) = (omega arith, omega arith, (tt, λ j. ap held (lookup-nil j)))
fresh (pos (suc n)) = (omega arith, omega arith, (tt, λ j. ap held (lookup-nil j)))
fresh (negsuc n) = (omega arith, omega arith, (tt, λ j. ap held (lookup-nil j)))

-- After any records were appended to a new sink, the sink holds no more than its bound, the ids in
-- its order are distinct, and `Get` finds exactly those.
pub sink_retains : (max : ℤ) (recs : List Record) → Retaining (append_each recs (new_sink max))
sink_retains max recs = each recs (new_sink max) (fresh max)

evict-get :
    (rec : Record) (records : Assoc Record) (order : List String) (max : ℕ)
    → 0 < max
    → among order rec.id ≡ false
    → get rec.id (evict (insert rec.id rec records) (order ++ rec.id ∷ []) max) ≡ some rec
evict-get rec records [] max p n =
    let small : ltb max 1 ≡ false = ground arith in
    rw small (lookup-insert rec.id rec.id rec records ∙ rw (eq_refl rec.id) refl)
evict-get rec records (x ∷ order) max p n =
    elim (Bool-cases (ltb max (length (x ∷ order ++ rec.id ∷ [])))) [
      | inr e ↦ rw e (lookup-insert rec.id rec.id rec records ∙ rw (eq_refl rec.id) refl)
      | inl e ↦ rw e (
          lookup-delete x rec.id (insert rec.id rec records)
          ∙ ground (
            arith,
            lookup-insert rec.id rec.id rec records,
            eq_refl rec.id,
            eq_iff x rec.id,
            eq_iff rec.id x,
          ))
    ]

-- When `Append` returns no error, `Get` finds the record, whatever the append evicted.
pub get-append :
    (rec : Record) (s : Sink)
    → Retaining s
    → (append rec s).0 ≡ none
    → get rec.id (append rec s).1 ≡ some rec
unfolding append
get-append rec s (p, le, (d, agree)) h = elim (Option-cases (lookup rec.id s.records)) [
  | inr (r, q) ↦ cc (rw (q, append) at h)
  | inl q ↦
      rw (q, append) (evict-get rec s.records s.order s.max p (sym (agree rec.id) ∙ ap held q))
]
