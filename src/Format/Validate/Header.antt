-- ===== src/Format/Validate/Header.antt =====
-- The tests before the loop accept exactly the valid headers.
use cake_splitter.Prelude.{◌≡◌, ◌↔◌, arith, codes, text_eq_iff, ok}
use cake_splitter.Format.Manifest.{External, CakeManifest}
use cake_splitter.Format.Filename.Portable.{validate_portable_filename_iff}
use cake_splitter.Format.Validate.{validate_header}
use cake_splitter.Format.Validate.Hash.{validate_hash_iff}
use cake_splitter.Format.Validate.Valid.{IsValidHeader}

header_of_accepted :
    (x : External) (m : CakeManifest) → validate_header x m ≡ ok tt → IsValidHeader x m
unfolding validate_header
header_of_accepted x m h = record {
  format = (text_eq_iff _ _).0 (ground arith);
  version = (text_eq_iff _ _).0 (ground arith);
  package_id = ground arith;
  created_at = ground arith;
  portable = (validate_portable_filename_iff x _).0 (ground arith);
  hash = (validate_hash_iff (codes "original file") _).0 (ground arith);
  size_safe = ground arith;
  target_safe = ground arith;
  target_pos = ground arith;
  count = ground arith;
  count_bounded = ground arith;
  table = ground arith;
}

accepted_of_header :
    (x : External) (m : CakeManifest) → IsValidHeader x m → validate_header x m ≡ ok tt
unfolding validate_header
accepted_of_header x m v =
    rw
      (
        (text_eq_iff _ _).1 v.format,
        (text_eq_iff _ _).1 v.version,
        v.package_id,
        v.created_at,
        (validate_portable_filename_iff x _).1 v.portable,
        (validate_hash_iff (codes "original file") _).1 v.hash,
      )
      (ground (arith, v.size_safe, v.target_safe, v.target_pos, v.count, v.count_bounded, v.table))

pub validate_header_iff :
    (x : External) (m : CakeManifest) → (validate_header x m ≡ ok tt) ↔ IsValidHeader x m
validate_header_iff x m = (header_of_accepted x m, accepted_of_header x m)
