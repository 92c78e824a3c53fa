-- ===== src/Hex.antt =====
-- Bytes, and the hexadecimal text of `encoding/hex`, which the engine uses for every digest. A
-- text is the list of its bytes.
use casper_prover.Prelude.{
  ℕ, ◌+◌, ◌-◌, ◌*◌, ◌/◌, ◌%◌, ◌<◌, ◌≡◌, refl, Bool, true, false, ◌&&◌, List, [], ◌∷◌, Option, none,
  some, arith, ltb, leb, ◌==◌, if◌then◌else◌, All,
}

-- Equality of two byte lists.
unfoldable pub bytes_eq : List ℕ → List ℕ → Bool
bytes_eq [] [] = true
bytes_eq (x ∷ xs) (y ∷ ys) = x == y && bytes_eq xs ys
bytes_eq _ _ = false

pub bytes_eq_sound : (xs ys : List ℕ) → bytes_eq xs ys ≡ true → xs ≡ ys
unfolding bytes_eq
bytes_eq_sound [] [] h = refl
bytes_eq_sound [] (y ∷ ys) h = cc
bytes_eq_sound (x ∷ xs) [] h = cc
bytes_eq_sound (x ∷ xs) (y ∷ ys) h = ground (arith, bytes_eq_sound xs ys)

pub bytes_eq_refl : (xs : List ℕ) → bytes_eq xs xs ≡ true
unfolding bytes_eq
bytes_eq_refl [] = refl
bytes_eq_refl (x ∷ xs) = ground (arith, bytes_eq_refl xs)

-- The digit of a half byte: '0'..'9', 'a'..'f'.
digit : ℕ → ℕ
digit n = if ltb n 10 then 48 + n else 87 + n

-- The half byte of a digit, of either case.
undigit : ℕ → Option ℕ
undigit c =
    if leb 48 c && leb c 57
    then some (c - 48)
    else if leb 97 c && leb c 102
    then some (c - 87)
    else if leb 65 c && leb c 70
    then some (c - 55)
    else none

-- hex.EncodeToString
unfoldable pub encode : List ℕ → List ℕ
unfolding digit
encode [] = []
encode (b ∷ bs) = digit (b / 16) ∷ digit (b % 16) ∷ encode bs

-- The byte of two digits, in front of the bytes of the rest.
abbrev join_digits : Option ℕ → Option ℕ → Option (List ℕ) → Option (List ℕ)
join_digits (some hi) (some lo) (some bs) = some ((hi * 16 + lo) ∷ bs)
join_digits _ _ _ = none

-- hex.DecodeString; `none` is its error.
unfoldable pub decode : List ℕ → Option (List ℕ)
unfolding undigit
decode [] = some []
decode (c ∷ []) = none
decode (c ∷ d ∷ s) = join_digits (undigit c) (undigit d) (decode s)

undigit-digit : (n : ℕ) → n < 16 → undigit (digit n) ≡ some n
unfolding undigit digit
undigit-digit n h = ground arith

-- Decoding the text of any bytes gives the bytes back.
pub decode-encode : (bs : List ℕ) → All (λ b. b < 256) bs → decode (encode bs) ≡ some bs
unfolding decode encode
decode-encode [] h = refl
decode-encode (b ∷ bs) h =
    rw
      (
        decode-encode bs h.1,
        undigit-digit (b / 16) (omega arith),
        undigit-digit (b % 16) (omega arith),
      )
      (ground arith)

pub encode-ne-nil : (b : ℕ) (bs : List ℕ) → bytes_eq (encode (b ∷ bs)) [] ≡ false
unfolding encode bytes_eq
encode-ne-nil b bs = refl
