-- ===== src/Format/Validate/Hash.antt =====
-- `validate_hash` accepts exactly the SHA-256 values in lower-case hexadecimal.
use cake_splitter.Prelude.{◌≡◌, ◌↔◌, refl, true, [], ◌∷◌, arith, Text, all, All, ok}
use cake_splitter.Format.Validate.{is_lower_hex, validate_hash}
use cake_splitter.Format.Validate.Valid.{IsSha256Hex}

All-all : (s : Text) → all is_lower_hex s ≡ true → All (λ c. is_lower_hex c ≡ true) s
All-all [] h = tt
All-all (c ∷ s) h = (ground arith, All-all s (ground arith))

all-All : (s : Text) → All (λ c. is_lower_hex c ≡ true) s → all is_lower_hex s ≡ true
all-All [] h = refl
all-All (c ∷ s) (d, ds) = rw d (all-All s ds)

hash_of_accepted : (label value : Text) → validate_hash label value ≡ ok tt → IsSha256Hex value
unfolding validate_hash
hash_of_accepted label value h = record {
  long = ground arith;
  digits = All-all value (ground arith);
}

accepted_of_hash : (label value : Text) → IsSha256Hex value → validate_hash label value ≡ ok tt
unfolding validate_hash
accepted_of_hash label value h = ground (arith, all-All value h.digits, h.long)

pub validate_hash_iff :
    (label value : Text) → (validate_hash label value ≡ ok tt) ↔ IsSha256Hex value
validate_hash_iff label value = (hash_of_accepted label value, accepted_of_hash label value)
