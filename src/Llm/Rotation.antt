-- ===== src/Llm/Rotation.antt =====
-- engine/internal/llm/keys.go, `Next`: which key is drawn, and that one is drawn if any is not resting.
use casper_prover.Prelude.{
  ℕ, zero, suc, ◌+◌, ◌-◌, ◌%◌, ◌<◌, true, false, Option, none, some, ◌≡◌, refl, sym, ap, ◌∙◌, inl,
  inr, ◌⊎◌, ◌==◌, Bool-cases, ok, err, length, get_or, arith, leb,
}
use native.Mathlib.Nat.{mod-eq_of_lt, mod-add-mod, mod-eq-sub-mod, mod-lt}
use casper_prover.Llm.Keys.{KeyRing, all_keys_cooling, slot_rested, rested, walk, drawn, next}

-- The slots before `stop` that Next looks at, from the cursor, are all resting.
abbrev pub RestingFor : KeyRing → ℕ → ℕ → Type 0
RestingFor r now stop = (j : ℕ) → j < stop → slot_rested r now (r.next + j) ≡ false

-- `Next`'s outcome: the first slot from the cursor whose key is not resting, or that all rest.
abbrev FirstFrom : KeyRing → ℕ → ℕ → ℕ → Option ℕ × ℕ → Type 0
FirstFrom r now left cursor (none, after) =
    ((j : ℕ) → j < left → slot_rested r now (cursor + j) ≡ false) × (after ≡ cursor + left)
FirstFrom r now left cursor (some idx, after) =
    (i : ℕ) × (i < left)
    × (slot_rested r now (cursor + i) ≡ true)
    × (idx ≡ (cursor + i) % length r.keys)
    × (after ≡ cursor + i + 1)
    × ((j : ℕ) → j < i → slot_rested r now (cursor + j) ≡ false)

later_resting :
    (r : KeyRing) (now cursor n : ℕ)
    → slot_rested r now cursor ≡ false
    → ((j : ℕ) → j < n → slot_rested r now (cursor + 1 + j) ≡ false)
    → (j : ℕ) → j < suc n
    → slot_rested r now (cursor + j) ≡ false
later_resting r now cursor n h g zero lt = let e : cursor + 0 ≡ cursor = omega arith in rw e h
later_resting r now cursor n h g (suc j) lt =
    let e : cursor + suc j ≡ cursor + 1 + j = omega arith in rw e (g j (omega arith))

shift :
    (r : KeyRing) (now left cursor : ℕ) (out : Option ℕ × ℕ)
    → slot_rested r now cursor ≡ false
    → FirstFrom r now left (cursor + 1) out
    → FirstFrom r now (suc left) cursor out
shift r now left cursor (none, after) h (g, e) = (later_resting r now cursor left h g, omega arith)
shift r now left cursor (some idx, after) h (i, lt, yes_rested, at_slot, e, g) = (
  suc i,
  omega arith,
  (let q : cursor + suc i ≡ cursor + 1 + i = omega arith in rw q yes_rested),
  (let q : cursor + suc i ≡ cursor + 1 + i = omega arith in rw q at_slot),
  omega arith,
  later_resting r now cursor i h g,
)

walk-FirstFrom :
    (r : KeyRing) (now left cursor : ℕ) → FirstFrom r now left cursor (walk r now left cursor)
unfolding walk
walk-FirstFrom r now zero cursor = (λ j lt. absurd (omega arith), omega arith)
walk-FirstFrom r now (suc left) cursor = elim (Bool-cases (slot_rested r now cursor)) [
  | inl e ↦
      let same : cursor + 0 ≡ cursor = omega arith in
      rw (e, FirstFrom)
        (0, omega arith, rw same e, rw same refl, omega arith, λ j lt. absurd (omega arith))
  | inr e ↦
      let ih =
        shift r now left cursor (walk r now left (cursor + 1)) e
          (walk-FirstFrom r now left (cursor + 1)) in
      rw (e, FirstFrom) ih
]

round : (c k n : ℕ) → k < n → (c + (k + n - c % n)) % n ≡ k
round c k n lt =
    let below : c % n < n = mod-lt c (omega arith) in
    let joined : c % n + (k + n - c % n) ≡ k + n = omega arith in
    let back : k + n - n ≡ k = omega arith in
    sym (mod-add-mod c n (k + n - c % n))
    ∙ ap (λ (x : ℕ). x % n) joined
    ∙ mod-eq-sub-mod (omega arith)
    ∙ ap (λ (x : ℕ). x % n) back
    ∙ mod-eq_of_lt lt

-- Every slot is among the `n` that follow a cursor.
slot_reached : (n c k : ℕ) → k < n → (j : ℕ) × (j < n) × ((c + j) % n ≡ k)
slot_reached n c k lt = elim (Bool-cases (leb (c % n) k)) [
  | inl le ↦ (k - c % n, ground arith, grind (arith, mod-add-mod c n (k - c % n), mod-eq_of_lt))
  | inr gt ↦ (k + n - c % n, ground arith, round c k n lt)
]

abbrev pub First : KeyRing → ℕ → Type 0
First r now =
    (i : ℕ) × (i < length r.keys)
    × (slot_rested r now (r.next + i) ≡ true)
    × ((j : ℕ) → j < i → slot_rested r now (r.next + j) ≡ false)
    × (next now r ≡ (
      ok (get_or r.keys ((r.next + i) % length r.keys) "", (r.next + i) % length r.keys),
      record r { next = r.next + i + 1 },
    ))

abbrev pub AllResting : KeyRing → ℕ → Type 0
AllResting r now =
    ((k : ℕ) → k < length r.keys → rested now (get_or r.resting_until k none) ≡ false)
    × (next now r ≡ (err all_keys_cooling, record r { next = r.next + length r.keys }))

outcome :
    (r : KeyRing) (now : ℕ) (w : Option ℕ × ℕ)
    → next now r ≡ drawn r w
    → FirstFrom r now (length r.keys) r.next w
    → First r now ⊎ AllResting r now
outcome r now (none, after) e (g, moved) = inr (
  (λ k lt. let (j, below, at) = slot_reached (length r.keys) r.next k lt in rw at at (g j below)),
  rw moved at e,
)
outcome r now (some idx, after) e (i, lt, free, at_slot, moved, g) =
    inl (i, lt, free, g, rw (at_slot, moved) at e)

next_walk :
    (r : KeyRing) (now : ℕ)
    → 0 < length r.keys
    → next now r ≡ drawn r (walk r now (length r.keys) r.next)
unfolding next
next_walk r now h = elim (Bool-cases (length r.keys == 0)) [
  | inl e ↦ absurd (ground arith)
  | inr e ↦ rw e
]

-- Next on a ring with keys draws the first key from its cursor on that is not resting and leaves
-- the cursor behind it; or every key of the ring is resting, and that is its error.
pub next_first : (r : KeyRing) (now : ℕ) → 0 < length r.keys → First r now ⊎ AllResting r now
next_first r now h =
    outcome r now (walk r now (length r.keys) r.next) (next_walk r now h)
      (walk-FirstFrom r now (length r.keys) r.next)
