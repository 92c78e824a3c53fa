-- ===== src/Audit/Lineage.antt =====
-- engine/internal/decision/audit.go: `Lineage` follows parent pointers, round a cycle too.
use casper_prover.Prelude.{
  ℕ, zero, suc, ◌+◌, ◌≤◌, String, none, some, ◌⊎◌, sym, ◌∙◌, eq_iff, List, [], ◌∷◌, ◌≡◌, arith,
  refl, str_eq, length, Bool-cases, Option-cases, inl, inr, ℤ,
}
use casper_prover.Prelude.Assoc.{Assoc, lookup}
use casper_prover.Audit.{Record, Sink, walk, depth, lineage}

module _ (records : Assoc Record) where
  -- Each record stands under the parent id of the next one, and the last under the given id.
  abbrev pub LeadsTo : List Record → String → Type 0
  LeadsTo [] id = Unit
  LeadsTo (r ∷ []) id = lookup id records ≡ some r
  LeadsTo (r ∷ s ∷ rest) id = (lookup s.parent_record_id records ≡ some r) × LeadsTo (s ∷ rest) id

  -- The id of the record that would come next, in front of the chain.
  abbrev pub next_id : List Record → String → String
  next_id [] id = id
  next_id (r ∷ rest) id = r.parent_record_id

  -- The id that would come next is empty or names no record.
  abbrev pub Ends : List Record → String → Type 0
  Ends chain id = (next_id chain id ≡ "") ⊎ (lookup (next_id chain id) records ≡ none)

  extend :
      (chain : List Record) (id : String) (r : Record)
      → LeadsTo chain id
      → lookup (next_id chain id) records ≡ some r
      → LeadsTo (r ∷ chain) id
  extend [] id r l q = q
  extend (s ∷ rest) id r l q = (q, l)

  -- What the walk returns: a chain of at most so many records, which is as long as allowed or ends.
  abbrev pub IsWhole : List Record → String → ℕ → Type 0
  IsWhole chain id most =
      LeadsTo chain id × (length chain ≤ most) × ((length chain ≡ most) ⊎ Ends chain id)

  walk-IsWhole :
      (left : ℕ) (id cursor : String) (chain : List Record) (most : ℕ)
      → cursor ≡ next_id chain id
      → LeadsTo chain id
      → left + length chain ≡ most
      → IsWhole (walk records left cursor chain) id most
  unfolding walk
  walk-IsWhole zero id cursor chain most g l n = (l, omega arith, inl (omega arith))
  walk-IsWhole (suc left) id cursor chain most g l n = elim (Bool-cases (str_eq cursor "")) [
    | inl e ↦ rw e (l, omega arith, inr (inl (sym g ∙ (eq_iff cursor "").0 e)))
    | inr e ↦ elim (Option-cases (lookup cursor records)) [
      | inl q ↦ rw (e, q) (l, omega arith, inr (inr (rw g at q)))
      | inr (r, q) ↦
          rw (e, q)
            (walk-IsWhole left id r.parent_record_id (r ∷ chain) most refl
              (extend chain id r l (rw g at q)) (omega arith))
    ]
  ]

-- `Lineage` returns the records from the id back, the root first: each is the stored parent of the
-- next, and the last one is the record of the id. They are at most as many as asked for (32 for no
-- bound), and fewer only where the id that would come next, the root's parent or the id itself, is
-- empty or names no stored record.
pub lineage-IsWhole :
    (id : String) (max_depth : ℤ) (s : Sink)
    → IsWhole s.records (lineage id max_depth s) id (depth max_depth)
unfolding lineage
lineage-IsWhole id max_depth s =
    walk-IsWhole s.records (depth max_depth) id id [] (depth max_depth) refl tt (omega arith)
