-- ===== src/Examples/Lineage.antt =====
-- Two receipts that list their facets in different orders.
use casper_prover.Prelude.{ℕ, ◌⊎◌, ◌≡◌, ◌≢◌, List, [], ◌∷◌, none, refl, arith}
use casper_prover.Prelude.Sort.{sort, insert_sorted}
use casper_prover.Hex.{encode}
use casper_prover.Receipts.{
  Formats, FacetOutput, DecisionReceipt, bytes_ltb, write_u32, write_lp, write_facets,
  write_providers, canonical_lists, canonical_bytes, canonical_hash,
}
use casper_prover.Receipts.Canonical.{IsShort, Same, canonical_hash-Same}
use casper_prover.Examples.{toy_sha}

abbrev formats : Formats ℕ
formats = record {
  time = λ t. t ∷ [];
  bits = λ v. v ∷ 0 ∷ 0 ∷ 0 ∷ 0 ∷ 0 ∷ 0 ∷ 0 ∷ [];
  bits_size = λ v. refl;
}

abbrev safety : FacetOutput ℕ
safety = record { kind = 115 ∷ []; verdict = 65 ∷ []; confidence = 90; reason = [] }

abbrev quality : FacetOutput ℕ
quality = record { kind = 113 ∷ []; verdict = 65 ∷ []; confidence = 80; reason = 111 ∷ [] }

abbrev receipt_of : List (FacetOutput ℕ) → DecisionReceipt ℕ
receipt_of facets = record {
  id = 49 ∷ [];
  issued_at = 7;
  issuer = 105 ∷ [];
  subject = 50 ∷ [];
  spec_id = [];
  evidence_root = [];
  model_id = [];
  aggregate = 65 ∷ [];
  vetoed_by = [];
  confidence = 85;
  facets = facets;
  provider_receipts = [];
  hitl = none;
  proof = none;
}

abbrev one_way : DecisionReceipt ℕ
one_way = receipt_of (safety ∷ quality ∷ [])

abbrev other_way : DecisionReceipt ℕ
other_way = receipt_of (quality ∷ safety ∷ [])

one_way-IsShort : IsShort formats one_way
unfolding sort insert_sorted bytes_ltb
one_way-IsShort = record {
  id = omega arith;
  issued_at = omega arith;
  issuer = omega arith;
  subject = omega arith;
  spec_id = omega arith;
  evidence_root = omega arith;
  model_id = omega arith;
  aggregate = omega arith;
  vetoed_by = omega arith;
  facet_count = omega arith;
  facets = ((omega arith, omega arith, omega arith), ((omega arith, omega arith, omega arith), tt));
  provider_count = omega arith;
  providers = tt;
  hitl = tt;
}

other_way-IsShort : IsShort formats other_way
unfolding sort insert_sorted bytes_ltb
other_way-IsShort = record {
  id = omega arith;
  issued_at = omega arith;
  issuer = omega arith;
  subject = omega arith;
  spec_id = omega arith;
  evidence_root = omega arith;
  model_id = omega arith;
  aggregate = omega arith;
  vetoed_by = omega arith;
  facet_count = omega arith;
  facets = ((omega arith, omega arith, omega arith), ((omega arith, omega arith, omega arith), tt));
  provider_count = omega arith;
  providers = tt;
  hitl = tt;
}

canonical_hash-Same_example :
    Same formats one_way other_way
    ⊎ ((canonical_bytes formats one_way ≢ canonical_bytes formats other_way)
        × (toy_sha.sum (canonical_bytes formats one_way)
            ≡ toy_sha.sum (canonical_bytes formats other_way)))
unfolding canonical_hash canonical_bytes canonical_lists write_facets write_providers write_lp
    write_u32 sort insert_sorted bytes_ltb encode
canonical_hash-Same_example =
    canonical_hash-Same formats toy_sha one_way other_way one_way-IsShort other_way-IsShort refl
