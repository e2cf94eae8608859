-- ===== src/Format/Validate/Parse.antt =====
-- `parse_manifest_json`: the limits, the nesting scan, serde's parser and `validate` in a row.
use cake_splitter.Prelude.{
  ℕ, ◌≤◌, ◌≡◌, sym, ap, ◌∙◌, ◌↔◌, arith, List, length, ok, is_err, Result, err, ltb→le, le→ltb,
  false, refl,
}
use cake_splitter.Format.Manifest.{
  External, CakeManifest, ManifestError, max_manifest_bytes, max_json_nesting,
}
use cake_splitter.Format.Nesting.{validate_json_nesting}
use cake_splitter.Format.Nesting.Depth.{deepest, lex, nesting_lem}
use cake_splitter.Format.Validate.{validate, parse_manifest_json}
use cake_splitter.Format.Validate.Valid.{IsValidManifest}
use cake_splitter.Format.Validate.Exact.{validate_iff}

-- what a parsed manifest and its text satisfy
pub record IsParsed (x : External) (json : List ℕ) (m : CakeManifest) : Type 0 where
  pub short : length json ≤ max_manifest_bytes
  pub shallow : deepest 0 (lex json) ≤ max_json_nesting
  pub decoded : x.manifest_from_json json ≡ ok m
  pub valid : IsValidManifest x m

not_err : (r : Result ManifestError (Unit {0})) → is_err r ≡ false → r ≡ ok tt
not_err (ok tt) h = refl
not_err (err e) h = cc

module _ (x : External) (json : List ℕ) (m : CakeManifest) where
  stages :
      parse_manifest_json x json ≡ ok m
      → (length json ≤ max_manifest_bytes)
        × (validate_json_nesting json ≡ ok tt)
        × (x.manifest_from_json json ≡ ok m)
        × (validate x m ≡ ok tt)
  unfolding parse_manifest_json
  stages run = ground arith

  IsParsed-of_ok : parse_manifest_json x json ≡ ok m → IsParsed x json m
  IsParsed-of_ok run =
      let (short, nested, decoded, valid) = stages run in
      record {
        short = short;
        shallow = ltb→le _ _ (sym (nesting_lem json) ∙ ap is_err nested);
        decoded = decoded;
        valid = (validate_iff x m).0 valid;
      }

  ok_of_parsed : IsParsed x json m → parse_manifest_json x json ≡ ok m
  unfolding parse_manifest_json
  ok_of_parsed p =
      let nested = not_err _ (nesting_lem json ∙ le→ltb _ _ p.shallow) in
      rw (le→ltb _ _ p.short, nested, p.decoded, (validate_iff x m).1 p.valid)

  -- A text parses to a manifest exactly when it is short and shallow, serde reads the manifest from
  -- it, and the manifest is valid.
  pub parse_manifest_json_iff : (parse_manifest_json x json ≡ ok m) ↔ IsParsed x json m
  parse_manifest_json_iff = (IsParsed-of_ok, ok_of_parsed)
