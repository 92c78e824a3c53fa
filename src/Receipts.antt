-- ===== src/Receipts.antt =====
-- engine/internal/receipts/types.go and canonical.go: decision receipts and the bytes that their hash
-- is taken of. A string is its bytes; a time is what it is formatted as, and a float64 its bits, both
-- parameters. The length prefix is the length modulo 2^32.
pub mod Reading
pub mod Canonical
use casper_prover.Prelude.{
  ℕ, zero, suc, ◌+◌, ◌*◌, ◌/◌, ◌%◌, ◌^◌, Bool, true, false, ◌||◌, ◌&&◌, Option, none, some, List,
  [], ◌∷◌, ◌++◌, ltb, ◌==◌, if◌then◌else◌, length, ◌≡◌,
}
use casper_prover.Prelude.Sort.{sort}
use casper_prover.Hex.{encode}
use casper_prover.Merkle.Digest.{Sha256}
use casper_prover.Attest

-- A string's bytes.
abbrev pub Text : Type 0
Text = List ℕ

-- `FacetOutput`
pub record FacetOutput (F : Type 0) : Type 0 where
  pub kind : Text
  pub verdict : Text
  pub confidence : F
  pub reason : Text

pub record ProviderReceipt : Type 0 where
  pub provider : Text
  pub trust_level : Text
  pub receipt_hash : Text

pub record HitlResolution : Type 0 where
  pub ticket_id : Text
  pub action : Text
  pub reviewer : Text
  pub resolved_at : ℕ
  pub note : Text

pub record Proof : Type 0 where
  pub scheme : Text
  pub signature : Text
  pub verification_method : Text
  pub signed_at : ℕ

pub record DecisionReceipt (F : Type 0) : Type 0 where
  pub id : Text
  pub issued_at : ℕ
  pub issuer : Text
  pub subject : Text
  pub spec_id : Text
  pub evidence_root : Text
  pub model_id : Text
  pub aggregate : Text
  pub vetoed_by : Text
  pub confidence : F
  pub facets : List (FacetOutput F)
  pub provider_receipts : List ProviderReceipt
  pub hitl : Option HitlResolution
  pub proof : Option Proof

-- `FromDecision`: the bytes of APPROVE, ABSTAIN and REJECT.
abbrev pub from_decision : Attest.Verdict → Text
from_decision Attest.Verdict.approve = 65 ∷ 80 ∷ 80 ∷ 82 ∷ 79 ∷ 86 ∷ 69 ∷ []
from_decision Attest.Verdict.reject = 82 ∷ 69 ∷ 74 ∷ 69 ∷ 67 ∷ 84 ∷ []
from_decision _ = 65 ∷ 66 ∷ 83 ∷ 84 ∷ 65 ∷ 73 ∷ 78 ∷ []

-- The order of Go's strings.
unfoldable pub bytes_ltb : Text → Text → Bool
bytes_ltb [] [] = false
bytes_ltb [] (b ∷ bs) = true
bytes_ltb (a ∷ as_left) [] = false
bytes_ltb (a ∷ as_left) (b ∷ bs) = ltb a b || (a == b && bytes_ltb as_left bs)

-- Four bytes, the highest first.
abbrev pub be32 : ℕ → List ℕ
be32 n = n / 2 ^ 24 % 256 ∷ n / 2 ^ 16 % 256 ∷ n / 2 ^ 8 % 256 ∷ n % 256 ∷ []

-- `writeU32`, `writeLP` and `writeU8`, with what is written after.
unfoldable pub write_u32 : ℕ → List ℕ → List ℕ
write_u32 v rest = be32 v ++ rest

unfoldable pub write_lp : Text → List ℕ → List ℕ
write_lp b rest = write_u32 (length b) (b ++ rest)

abbrev pub write_u8 : ℕ → List ℕ → List ℕ
write_u8 v rest = v ∷ rest

-- Go's time formatting and math.Float64bits, as eight bytes.
pub record Formats (F : Type 0) : Type 0 where
  pub time : ℕ → Text
  pub bits : F → List ℕ
  pub bits_size : (v : F) → length (bits v) ≡ 8

module _ {F : Type 0} (fmt : Formats F) where
  -- `writeF64`
  abbrev pub write_f64 : F → List ℕ → List ℕ
  write_f64 v rest = fmt.bits v ++ rest

  abbrev pub by_kind : FacetOutput F → FacetOutput F → Bool
  by_kind a b = bytes_ltb a.kind b.kind

  abbrev pub by_hash : ProviderReceipt → ProviderReceipt → Bool
  by_hash a b = bytes_ltb a.receipt_hash b.receipt_hash

  unfoldable pub write_facets : List (FacetOutput F) → List ℕ → List ℕ
  write_facets [] rest = rest
  write_facets (f ∷ fs) rest =
      write_lp f.kind
        (write_lp f.verdict (write_f64 f.confidence (write_lp f.reason (write_facets fs rest))))

  unfoldable pub write_providers : List ProviderReceipt → List ℕ → List ℕ
  write_providers [] rest = rest
  write_providers (p ∷ ps) rest =
      write_lp p.provider
        (write_lp p.trust_level (write_lp p.receipt_hash (write_providers ps rest)))

  abbrev pub write_hitl : Option HitlResolution → List ℕ
  write_hitl none = write_u8 0 []
  write_hitl (some h) = write_u8 1 (
      write_lp h.ticket_id (
        write_lp h.action
          (write_lp h.reviewer (write_lp (fmt.time h.resolved_at) (write_lp h.note [])))))

  -- The sorted copies. Elements with equal keys, which Go's sort.Slice may put in either order, keep
  -- theirs.
  abbrev pub sorted_facets : DecisionReceipt F → List (FacetOutput F)
  sorted_facets r = sort by_kind r.facets

  abbrev pub sorted_providers : DecisionReceipt F → List ProviderReceipt
  sorted_providers r = sort by_hash r.provider_receipts

  -- The bytes that CanonicalHash writes.
  unfoldable pub canonical_lists : DecisionReceipt F → List ℕ
  unfolding write_facets write_providers
  canonical_lists r = write_u32 (length (sorted_facets r)) (
      write_facets (sorted_facets r) (
        write_u32 (length (sorted_providers r))
          (write_providers (sorted_providers r) (write_hitl r.hitl))))

  unfoldable pub canonical_bytes : DecisionReceipt F → List ℕ
  unfolding canonical_lists
  canonical_bytes r = write_lp r.id (
      write_lp (fmt.time r.issued_at) (
        write_lp r.issuer (
          write_lp r.subject (
            write_lp r.spec_id (
              write_lp r.evidence_root (
                write_lp r.model_id (
                  write_lp r.aggregate
                    (write_lp r.vetoed_by (write_f64 r.confidence (canonical_lists r))))))))))

  -- `CanonicalHash`
  unfoldable pub canonical_hash : Sha256 → DecisionReceipt F → Text
  unfolding canonical_bytes
  canonical_hash sha r = encode (sha.sum (canonical_bytes r))
