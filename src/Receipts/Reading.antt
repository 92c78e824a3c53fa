-- ===== src/Receipts/Reading.antt =====
-- engine/internal/receipts/canonical.go: what is written can be read back piece by piece.
use casper_prover.Prelude.{ℕ, ◌/◌, ◌%◌, ◌^◌, ◌<◌, List, [], ◌∷◌, ◌++◌, ◌≡◌, refl, length, arith}
use casper_prover.Receipts.{Text, be32, write_u32, write_lp}

-- Two texts that begin with pieces of one length have equal pieces and equal rests.
pub same_length : (p q x y : List ℕ) → length p ≡ length q → p ++ x ≡ q ++ y → (p ≡ q) × (x ≡ y)
same_length [] [] x y l h = (refl, h)
same_length [] (b ∷ q) x y l h = absurd (omega arith)
same_length (a ∷ p) [] x y l h = absurd (omega arith)
same_length (a ∷ p) (b ∷ q) x y l h =
    let head : a ≡ b = cc in
    let tail : p ++ x ≡ q ++ y = cc in
    let (e, f) = same_length p q x y (omega arith) tail in (cc, f)

be32-injective : (m n : ℕ) → m < 2 ^ 32 → n < 2 ^ 32 → be32 m ≡ be32 n → m ≡ n
be32-injective m n hm hn h =
    let a : m / 2 ^ 24 % 256 ≡ n / 2 ^ 24 % 256 = cc in
    let b : m / 2 ^ 16 % 256 ≡ n / 2 ^ 16 % 256 = cc in
    let c : m / 2 ^ 8 % 256 ≡ n / 2 ^ 8 % 256 = cc in let d : m % 256 ≡ n % 256 = cc in omega arith

pub write_u32-reads :
    (m n : ℕ) (x y : List ℕ)
    → m < 2 ^ 32
    → n < 2 ^ 32
    → write_u32 m x ≡ write_u32 n y
    → (m ≡ n) × (x ≡ y)
unfolding write_u32
write_u32-reads m n x y hm hn h =
    let (e, f) = same_length (be32 m) (be32 n) x y refl h in (be32-injective m n hm hn e, f)

pub write_lp-reads :
    (a b : Text) (x y : List ℕ)
    → length a < 2 ^ 32
    → length b < 2 ^ 32
    → write_lp a x ≡ write_lp b y
    → (a ≡ b) × (x ≡ y)
unfolding write_lp
write_lp-reads a b x y ha hb h =
    let (e, f) = write_u32-reads (length a) (length b) (a ++ x) (b ++ y) ha hb h in
    same_length a b x y e f
