-- ===== src/Receipts/Canonical.antt =====
-- engine/internal/receipts/canonical.go: what the canonical bytes and the hash of a receipt determine.
use casper_prover.Prelude.{
  ℕ, ◌^◌, ◌<◌, true, false, Option, none, some, List, [], ◌∷◌, ◌≡◌, ◌≢◌, refl, sym, ◌∙◌, ap, inl,
  inr, ◌⊎◌, All, map, length, Bool-cases, arith,
}
use casper_prover.Hex.{encode, decode, decode-encode, bytes_eq, bytes_eq_sound, bytes_eq_refl}
use casper_prover.Merkle.Digest.{Sha256}
use casper_prover.Receipts.{
  Text, FacetOutput, ProviderReceipt, HitlResolution, DecisionReceipt, Formats, write_f64,
  write_facets, write_providers, write_hitl, sorted_facets, sorted_providers, canonical_lists,
  canonical_bytes, canonical_hash,
}
use casper_prover.Receipts.Reading.{same_length, write_u32-reads, write_lp-reads}

-- A length that the prefix of four bytes holds.
abbrev pub Short {ℓ} : {A : Type ℓ} → List A → Type 0
Short xs = length xs < 2 ^ 32

true-ne-false : true ≡ false → ⊥
true-ne-false q = cc

module _ {F : Type 0} (fmt : Formats F) where
  abbrev pub FacetView : Type 0
  FacetView = Text × Text × List ℕ × Text

  -- What is written of a facet and of a review.
  abbrev pub facet_view : FacetOutput F → FacetView
  facet_view f = (f.kind, f.verdict, fmt.bits f.confidence, f.reason)

  abbrev pub ProviderView : Type 0
  ProviderView = Text × Text × Text

  abbrev pub provider_view : ProviderReceipt → ProviderView
  provider_view p = (p.provider, p.trust_level, p.receipt_hash)

  abbrev pub HitlView : Type 0
  HitlView = Text × Text × Text × Text × Text

  abbrev pub hitl_view : Option HitlResolution → Option HitlView
  hitl_view none = none
  hitl_view (some h) = some (h.ticket_id, h.action, h.reviewer, fmt.time h.resolved_at, h.note)

  abbrev pub ShortFacet : FacetOutput F → Type 0
  ShortFacet f = Short f.kind × Short f.verdict × Short f.reason

  abbrev pub ShortProvider : ProviderReceipt → Type 0
  ShortProvider p = Short p.provider × Short p.trust_level × Short p.receipt_hash

  abbrev pub ShortHitl : Option HitlResolution → Type 0
  ShortHitl none = Unit
  ShortHitl (some h) =
      Short h.ticket_id
      × Short h.action
      × Short h.reviewer
      × Short (fmt.time h.resolved_at)
      × Short h.note

  write_f64-reads :
      (u v : F) (x y : List ℕ)
      → write_f64 fmt u x ≡ write_f64 fmt v y
      → (fmt.bits u ≡ fmt.bits v) × (x ≡ y)
  write_f64-reads u v x y h =
      same_length (fmt.bits u) (fmt.bits v) x y (fmt.bits_size u ∙ sym (fmt.bits_size v)) h

  write_facets-reads :
      (fs gs : List (FacetOutput F)) (x y : List ℕ)
      → length fs ≡ length gs
      → All ShortFacet fs
      → All ShortFacet gs
      → write_facets fmt fs x ≡ write_facets fmt gs y
      → (map facet_view fs ≡ map facet_view gs) × (x ≡ y)
  unfolding write_facets
  write_facets-reads [] [] x y l s t h = (refl, h)
  write_facets-reads [] (g ∷ gs) x y l s t h = absurd (omega arith)
  write_facets-reads (f ∷ fs) [] x y l s t h = absurd (omega arith)
  write_facets-reads (f ∷ fs) (g ∷ gs) x y l ((sk, sv, sr), s) ((tk, tv, tr), t) h =
      let (kind, h1) = write_lp-reads f.kind g.kind _ _ sk tk h in
      let (verdict, h2) = write_lp-reads f.verdict g.verdict _ _ sv tv h1 in
      let (confidence, h3) = write_f64-reads f.confidence g.confidence _ _ h2 in
      let (reason, h4) = write_lp-reads f.reason g.reason _ _ sr tr h3 in
      let (rest, same) = write_facets-reads fs gs x y (omega arith) s t h4 in
      (rw (kind, verdict, confidence, reason, rest) refl, same)

  write_providers-reads :
      (ps qs : List ProviderReceipt) (x y : List ℕ)
      → length ps ≡ length qs
      → All ShortProvider ps
      → All ShortProvider qs
      → write_providers fmt ps x ≡ write_providers fmt qs y
      → (map provider_view ps ≡ map provider_view qs) × (x ≡ y)
  unfolding write_providers
  write_providers-reads [] [] x y l s t h = (refl, h)
  write_providers-reads [] (q ∷ qs) x y l s t h = absurd (omega arith)
  write_providers-reads (p ∷ ps) [] x y l s t h = absurd (omega arith)
  write_providers-reads (p ∷ ps) (q ∷ qs) x y l ((sp, st, sh), s) ((tp, tt_level, th), t) h =
      let (provider, h1) = write_lp-reads p.provider q.provider _ _ sp tp h in
      let (level, h2) = write_lp-reads p.trust_level q.trust_level _ _ st tt_level h1 in
      let (hash, h3) = write_lp-reads p.receipt_hash q.receipt_hash _ _ sh th h2 in
      let (rest, same) = write_providers-reads ps qs x y (omega arith) s t h3 in
      (rw (provider, level, hash, rest) refl, same)

  write_hitl-reads :
      (a b : Option HitlResolution)
      → ShortHitl a
      → ShortHitl b
      → write_hitl fmt a ≡ write_hitl fmt b
      → hitl_view a ≡ hitl_view b
  write_hitl-reads none none s t h = refl
  write_hitl-reads none (some v) s t h = absurd (differ h)
    where
      differ : {x y : List ℕ} → ◌≡◌ {A = List ℕ} (0 ∷ x) (1 ∷ y) → ⊥
      differ q = ground arith
  write_hitl-reads (some u) none s t h = absurd (differ h)
    where
      differ : {x y : List ℕ} → ◌≡◌ {A = List ℕ} (1 ∷ x) (0 ∷ y) → ⊥
      differ q = ground arith
  write_hitl-reads (some u) (some v) (s1, s2, s3, s4, s5) (t1, t2, t3, t4, t5) h =
      let (e1, h1) = write_lp-reads u.ticket_id v.ticket_id _ _ s1 t1 (tail h) in
      let (e2, h2) = write_lp-reads u.action v.action _ _ s2 t2 h1 in
      let (e3, h3) = write_lp-reads u.reviewer v.reviewer _ _ s3 t3 h2 in
      let (e4, h4) =
        write_lp-reads (fmt.time u.resolved_at) (fmt.time v.resolved_at) _ _ s4 t4 h3 in
      let (e5, h5) = write_lp-reads u.note v.note [] [] s5 t5 h4 in rw (e1, e2, e3, e4, e5) refl
    where
      tail : {x y : List ℕ} → ◌≡◌ {A = List ℕ} (1 ∷ x) (1 ∷ y) → x ≡ y
      tail q = cc

  -- Every length in a receipt fits in its prefix.
  pub record IsShort (r : DecisionReceipt F) : Type 0 where
    pub id : Short r.id
    pub issued_at : Short (fmt.time r.issued_at)
    pub issuer : Short r.issuer
    pub subject : Short r.subject
    pub spec_id : Short r.spec_id
    pub evidence_root : Short r.evidence_root
    pub model_id : Short r.model_id
    pub aggregate : Short r.aggregate
    pub vetoed_by : Short r.vetoed_by
    pub facet_count : Short (sorted_facets fmt r)
    pub facets : All ShortFacet (sorted_facets fmt r)
    pub provider_count : Short (sorted_providers fmt r)
    pub providers : All ShortProvider (sorted_providers fmt r)
    pub hitl : ShortHitl r.hitl

  -- Two receipts are equal but for their proof, the order of facets and upstream receipts, and what
  -- the formats of times and numbers do not show.
  pub record Same (r s : DecisionReceipt F) : Type 0 where
    pub id : r.id ≡ s.id
    pub issued_at : fmt.time r.issued_at ≡ fmt.time s.issued_at
    pub issuer : r.issuer ≡ s.issuer
    pub subject : r.subject ≡ s.subject
    pub spec_id : r.spec_id ≡ s.spec_id
    pub evidence_root : r.evidence_root ≡ s.evidence_root
    pub model_id : r.model_id ≡ s.model_id
    pub aggregate : r.aggregate ≡ s.aggregate
    pub vetoed_by : r.vetoed_by ≡ s.vetoed_by
    pub confidence : fmt.bits r.confidence ≡ fmt.bits s.confidence
    pub facets : map facet_view (sorted_facets fmt r) ≡ map facet_view (sorted_facets fmt s)
    pub providers :
        map provider_view (sorted_providers fmt r) ≡ map provider_view (sorted_providers fmt s)
    pub hitl : hitl_view r.hitl ≡ hitl_view s.hitl

  canonical_lists-reads :
      (r s : DecisionReceipt F)
      → IsShort r
      → IsShort s
      → canonical_lists fmt r ≡ canonical_lists fmt s
      → (map facet_view (sorted_facets fmt r) ≡ map facet_view (sorted_facets fmt s))
        × (map provider_view (sorted_providers fmt r) ≡ map provider_view (sorted_providers fmt s))
        × (hitl_view r.hitl ≡ hitl_view s.hitl)
  unfolding canonical_lists
  canonical_lists-reads r s u v h =
      let (n, h1) = write_u32-reads _ _ _ _ u.facet_count v.facet_count h in
      let (facets, h2) =
        write_facets-reads (sorted_facets fmt r) (sorted_facets fmt s) _ _ n u.facets v.facets h1 in
      let (k, h3) = write_u32-reads _ _ _ _ u.provider_count v.provider_count h2 in
      let (providers, h4) =
        write_providers-reads (sorted_providers fmt r) (sorted_providers fmt s) _ _ k u.providers
          v.providers h3 in
      (facets, providers, write_hitl-reads r.hitl s.hitl u.hitl v.hitl h4)

  pub canonical_bytes-reads :
      (r s : DecisionReceipt F)
      → IsShort r
      → IsShort s
      → canonical_bytes fmt r ≡ canonical_bytes fmt s
      → Same r s
  unfolding canonical_bytes
  canonical_bytes-reads r s u v h =
      let (id, h1) = write_lp-reads r.id s.id _ _ u.id v.id h in
      let (issued_at, h2) =
        write_lp-reads (fmt.time r.issued_at) (fmt.time s.issued_at) _ _ u.issued_at v.issued_at
          h1 in
      let (issuer, h3) = write_lp-reads r.issuer s.issuer _ _ u.issuer v.issuer h2 in
      let (subject, h4) = write_lp-reads r.subject s.subject _ _ u.subject v.subject h3 in
      let (spec_id, h5) = write_lp-reads r.spec_id s.spec_id _ _ u.spec_id v.spec_id h4 in
      let (evidence_root, h6) =
        write_lp-reads r.evidence_root s.evidence_root _ _ u.evidence_root v.evidence_root h5 in
      let (model_id, h7) = write_lp-reads r.model_id s.model_id _ _ u.model_id v.model_id h6 in
      let (aggregate, h8) = write_lp-reads r.aggregate s.aggregate _ _ u.aggregate v.aggregate h7 in
      let (vetoed_by, h9) = write_lp-reads r.vetoed_by s.vetoed_by _ _ u.vetoed_by v.vetoed_by h8 in
      let (confidence, h10) = write_f64-reads r.confidence s.confidence _ _ h9 in
      let (facets, providers, hitl) = canonical_lists-reads r s u v h10 in
      record {
        id = id;
        issued_at = issued_at;
        issuer = issuer;
        subject = subject;
        spec_id = spec_id;
        evidence_root = evidence_root;
        model_id = model_id;
        aggregate = aggregate;
        vetoed_by = vetoed_by;
        confidence = confidence;
        facets = facets;
        providers = providers;
        hitl = hitl;
      }

  encode-injective :
      (xs ys : List ℕ)
      → All (λ b. b < 256) xs
      → All (λ b. b < 256) ys
      → encode xs ≡ encode ys
      → xs ≡ ys
  encode-injective xs ys hx hy h =
      let both : ◌≡◌ {A = Option (List ℕ)} (some xs) (some ys) =
        sym (decode-encode xs hx) ∙ ap decode h ∙ decode-encode ys hy in
      cc

  differ : (x y : List ℕ) → bytes_eq x y ≡ false → x ≢ y
  differ x y e q = true-ne-false (sym (bytes_eq_refl y) ∙ rw q at e)

  -- Two receipts with one CanonicalHash, whose lengths fit in their prefixes, are equal in all that is
  -- hashed, up to the order of facets and upstream receipts; or their own canonical bytes differ and
  -- have one SHA-256 digest.
  pub canonical_hash-Same :
      (sha : Sha256) (r s : DecisionReceipt F)
      → IsShort r
      → IsShort s
      → canonical_hash fmt sha r ≡ canonical_hash fmt sha s
      → Same r s
        ⊎ ((canonical_bytes fmt r ≢ canonical_bytes fmt s)
            × (sha.sum (canonical_bytes fmt r) ≡ sha.sum (canonical_bytes fmt s)))
  unfolding canonical_hash
  canonical_hash-Same sha r s u v h =
      let x = canonical_bytes fmt r in
      let y = canonical_bytes fmt s in
      let sums =
        encode-injective (sha.sum x) (sha.sum y) (sha.sum-IsDigest x).bytes
          (sha.sum-IsDigest y).bytes h in
      elim (Bool-cases (bytes_eq x y)) [
        | inl e ↦ inl (canonical_bytes-reads r s u v (bytes_eq_sound x y e))
        | inr e ↦ inr (differ x y e, sums)
      ]
