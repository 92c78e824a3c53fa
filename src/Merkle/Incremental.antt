-- ===== src/Merkle/Incremental.antt =====
-- engine/internal/prover/incremental.go: the append-only accumulator and its batch receipts.
-- `frontier` and `occupied` always grow together, and are one list of slots here.
use casper_prover.Prelude.{
  Outcome, ok, err, ℕ, ◌+◌, ◌-◌, Bool, true, false, List, [], ◌∷◌, Option, none, some, ltb, ◌==◌,
  if◌then◌else◌, length, replicate,
}
use casper_prover.Hex.{bytes_eq, encode, decode}
use casper_prover.Merkle.Digest.{Sha256, hash_pair}
use casper_prover.Merkle.Levels.{self_up}
use casper_prover.Merkle.Climb.{ceil_log2}

pub record Slot : Type 0 where
  pub hash : List ℕ
  pub occupied : Bool

pub record IncrementalMerkle : Type 0 where
  pub frontier : List Slot
  pub size : ℕ

-- `NewIncrementalMerkle`
abbrev pub new : IncrementalMerkle
new = record { frontier = []; size = 0 }

abbrev pub full : List ℕ → Slot
full h = record { hash = h; occupied = true }

-- `[32]byte{}`, `false`
abbrev pub cleared : Slot
cleared = record { hash = replicate 32 0; occupied = false }

-- A pending carry: the hash and its level; `none` where `hasCarry` is false.
abbrev pub Carry : Type 0
Carry = Option (List ℕ × ℕ)

pub record BatchReceipt : Type 0 where
  pub prev_root : List ℕ
  pub new_root : List ℕ
  pub start_index : ℕ
  pub leaves : List (List ℕ)
  pub batch_size : ℕ

pub data BatchError : Type 0 where
  empty_batch : BatchError
  root_failed : ℕ → BatchError
  size_mismatch : ℕ → ℕ → BatchError
  prev_root_mismatch : List ℕ → List ℕ → BatchError
  invalid_leaf_hash : List ℕ → BatchError

abbrev pub Result : Type 0 → Type 0
Result A = Outcome BatchError A

module _ (sha : Sha256) where
  -- The loop of `foldIn`, from its level upwards.
  unfoldable pub fold_slots : List ℕ → List Slot → List Slot
  fold_slots cur [] = full cur ∷ []
  fold_slots cur (s ∷ slots) = elim s.occupied [
    | true ↦ cleared ∷ fold_slots (hash_pair sha s.hash cur) slots
    | false ↦ full cur ∷ slots
  ]

  -- `foldIn` followed by `size++`, as both of its callers have it.
  unfoldable pub fold_in : IncrementalMerkle → List ℕ → IncrementalMerkle
  unfolding fold_slots
  fold_in m h = record { frontier = fold_slots h m.frontier; size = m.size + 1 }

  -- `Append`
  unfoldable pub append : IncrementalMerkle → List ℕ → IncrementalMerkle × List ℕ
  unfolding fold_in
  append m leaf = (fold_in m (sha.sum leaf), sha.sum leaf)

  -- `for hasCarry && carryLvl < lvl`: the carry joined with itself up to the level.
  unfoldable pub raise : ℕ → Carry → Carry
  unfolding self_up
  raise lvl none = none
  raise lvl (some (c, carry_lvl)) =
      if ltb carry_lvl lvl
      then some (self_up (hash_pair sha) (lvl - carry_lvl) c, lvl)
      else some (c, carry_lvl)

  -- The rest of the loop's body, on an occupied level.
  abbrev pub combine : ℕ → List ℕ → Carry → Carry
  combine lvl h none = some (h, lvl)
  combine lvl h (some (c, _)) = some (hash_pair sha h c, lvl + 1)

  -- The loop of `Root` over the levels.
  unfoldable pub collect : ℕ → List Slot → Carry → Carry
  collect lvl [] carry = carry
  collect lvl (s ∷ slots) carry =
      collect (lvl + 1) slots
        (if s.occupied then combine lvl s.hash (raise lvl carry) else raise lvl carry)

  abbrev pub target_level : ℕ → ℕ
  target_level size = if ceil_log2 size == 0 then 1 else ceil_log2 size

  abbrev pub carry_text : Carry → List ℕ
  carry_text none = []
  carry_text (some (c, _)) = encode c

  -- `Root`
  unfoldable pub root : IncrementalMerkle → List ℕ
  root m =
      if m.size == 0
      then []
      else carry_text (raise (target_level m.size) (collect 0 m.frontier none))

  -- The loop of `AppendBatch`.
  unfoldable pub append_all : IncrementalMerkle → List (List ℕ) → IncrementalMerkle × List (List ℕ)
  unfolding append
  append_all m [] = (m, [])
  append_all m (leaf ∷ leaves) =
      let (m', h) = append m leaf in
      let (m'', hexes) = append_all m' leaves in (m'', encode h ∷ hexes)

  abbrev pub receipt :
      IncrementalMerkle → List (List ℕ) → IncrementalMerkle × List (List ℕ) → BatchReceipt
  receipt m leaves (m', hexes) = record {
    prev_root = root m;
    new_root = root m';
    start_index = m.size;
    leaves = hexes;
    batch_size = length leaves;
  }

  -- `AppendBatch`: the accumulator afterwards, and the receipt or the error.
  unfoldable pub append_batch :
      IncrementalMerkle → List (List ℕ) → IncrementalMerkle × Result BatchReceipt
  append_batch m [] = (m, err empty_batch)
  append_batch m (leaf ∷ leaves) =
      let after = append_all m (leaf ∷ leaves) in
      if bytes_eq (root after.0) []
      then (m, err (root_failed (length (leaf ∷ leaves))))
      else (after.0, ok (receipt m (leaf ∷ leaves) after))

  -- The replay loop of `VerifyReceiptTransition`, on the clone.
  unfoldable pub replay : IncrementalMerkle → List (List ℕ) → Result IncrementalMerkle
  unfolding fold_in
  replay m [] = ok m
  replay m (hex ∷ hexes) = elim (decode hex) [
    | none ↦ err (invalid_leaf_hash hex)
    | some raw ↦ elim (length raw == 32) [
      | true ↦ replay (fold_in m raw) hexes
      | false ↦ err (invalid_leaf_hash hex)
    ]
  ]

  abbrev pub compare_root : Result IncrementalMerkle → List ℕ → Result Bool
  compare_root (ok m) text = ok (bytes_eq (root m) text)
  compare_root (err e) text = err e

  -- `VerifyReceiptTransition`, for a receipt that is not nil.
  unfoldable pub verify_receipt_transition : IncrementalMerkle → BatchReceipt → Result Bool
  verify_receipt_transition m rc =
      if rc.batch_size == length rc.leaves
      then (if bytes_eq (root m) rc.prev_root
          then compare_root (replay m rc.leaves) rc.new_root
          else err (prev_root_mismatch (root m) rc.prev_root))
      else err (size_mismatch rc.batch_size (length rc.leaves))
