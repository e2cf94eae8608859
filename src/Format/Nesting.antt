-- ===== src/Format/Nesting.antt =====
-- `validate_json_nesting`: a scan of the bytes that counts brackets outside strings.
pub mod Depth
use cake_splitter.Prelude.{
  ℕ, ◌+◌, ◌-◌, Bool, true, false, ◌||◌, List, [], ◌∷◌, ltb, ◌==◌, Result, ok, err, if◌then◌else◌,
}
use cake_splitter.Format.Manifest.{ManifestError, json_nesting_too_deep, max_json_nesting}

-- the loop, on the variables `depth`, `in_string` and `escaped`
unfoldable pub nesting_loop : ℕ → Bool → Bool → List ℕ → Result ManifestError (Unit {0})
nesting_loop depth in_string escaped [] = ok tt
nesting_loop depth true true (byte ∷ bytes) = nesting_loop depth true false bytes
nesting_loop depth true false (byte ∷ bytes) =
    let escape = nesting_loop depth true true bytes in
    let close = nesting_loop depth false false bytes in
    let inside = nesting_loop depth true false bytes in
    if byte == 92 then escape else if byte == 34 then close else inside
nesting_loop depth false escaped (byte ∷ bytes) =
    let quote = nesting_loop depth true escaped bytes in
    let deeper = nesting_loop (depth + 1) false escaped bytes in
    let shallower = nesting_loop (depth - 1) false escaped bytes in
    let other = nesting_loop depth false escaped bytes in
    if byte == 34
    then quote
    else if byte == b'{' || byte == b'['
    then (if ltb max_json_nesting (depth + 1) then err json_nesting_too_deep else deeper)
    else if byte == b'}' || byte == b']'
    then shallower
    else other

unfoldable pub validate_json_nesting : List ℕ → Result ManifestError (Unit {0})
unfolding nesting_loop
validate_json_nesting json = nesting_loop 0 false false json
