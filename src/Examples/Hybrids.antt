-- ===== src/Examples/Hybrids.antt =====
-- A hybrid signature by two toy schemes: a signature is the length of the message, padded or with the
-- key in front.
use casper_prover.Prelude.{
  ℕ, true, Option, none, some, List, [], ◌∷◌, ◌++◌, ◌≡◌, ◌↔◌, refl, sym, ap, ◌∙◌, replicate, length,
  drop, ok, arith,
}
use casper_prover.Hex.{bytes_eq, bytes_eq_refl}
use casper_prover.Hybrid.{
  Schemes, HybridSignature, marshal_binary, unmarshal_binary, sign_classic, verify_classic,
  verify_mldsa, hybrid_sign, hybrid_verify,
}
use casper_prover.Hybrid.Both.{ArePaired, hybrid_verify-hybrid_sign, hybrid_verify-both}

abbrev toy_classic : List ℕ → List ℕ → List ℕ
toy_classic key m = length m ∷ replicate 63 0

abbrev toy_schemes : Schemes
toy_schemes = record {
  classic_sign = toy_classic;
  classic_check = λ key m s. bytes_eq s (toy_classic key m);
  PqPrivate = ℕ;
  PqPublic = ℕ;
  pq_sign = λ key m. some (key ∷ length m ∷ []);
  pq_check = λ key m s. bytes_eq s (key ∷ length m ∷ []);
  pq_size = 2;
}

abbrev private : List ℕ
private = replicate 64 7

abbrev public : List ℕ
public = replicate 32 7

abbrev message : List ℕ
message = 104 ∷ 105 ∷ []

abbrev hybrid : List ℕ
hybrid = 1 ∷ 0 ∷ 64 ∷ (toy_classic private message ++ 0 ∷ 2 ∷ 9 ∷ 2 ∷ [])

toy_schemes-ArePaired : ArePaired toy_schemes private public 9 9
toy_schemes-ArePaired = record {
  public_size = refl;
  classic_size = λ m. refl;
  classic_checks = λ m. bytes_eq_refl (toy_classic private m);
  pq_size = λ m s h. ground arith;
  pq_checks = λ m s h. accepted m s h;
}
  where
    accepted :
        (m s : List ℕ)
        → ◌≡◌ {A = Option (List ℕ)} (some (9 ∷ length m ∷ [])) (some s)
        → bytes_eq s (9 ∷ length m ∷ []) ≡ true
    accepted m s h =
        let e : 9 ∷ length m ∷ [] ≡ s = cc in
        ap (λ t. bytes_eq t (9 ∷ length m ∷ [])) (sym e) ∙ bytes_eq_refl (9 ∷ length m ∷ [])

signed : hybrid_sign toy_schemes private (some 9) message ≡ ok hybrid
unfolding hybrid_sign sign_classic marshal_binary
signed = refl

hybrid_verify-hybrid_sign_example :
    (hybrid_verify toy_schemes public (some 9) message hybrid ≡ (true, true, true, none))
    × (hybrid_verify toy_schemes public (some 9) message (200 ∷ (drop 1 hybrid ++ 5 ∷ []))
        ≡ (true, true, true, none))
hybrid_verify-hybrid_sign_example =
    hybrid_verify-hybrid_sign toy_schemes private public 9 9 message hybrid toy_schemes-ArePaired
      signed 200 (5 ∷ [])

hybrid_verify-both_example :
    ((hybrid_verify toy_schemes public (some 9) message hybrid).0 ≡ true) ↔ (
      (hs : HybridSignature) × (unmarshal_binary hybrid ≡ ok hs)
      × (verify_classic toy_schemes public message hs.classic_sig ≡ ok true)
      × (verify_mldsa toy_schemes (some 9) message hs.pq_sig ≡ ok true))
hybrid_verify-both_example = hybrid_verify-both toy_schemes public (some 9) message hybrid
