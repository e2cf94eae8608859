-- ===== src/Runtime/Shape/Failure.antt =====
-- The failures that `TaskFailure::bounded` makes against the test of `validate_record_shape`.
use cake_splitter.Prelude.{
  ℕ, zero, suc, ◌≤◌, ◌<◌, ◌≡◌, refl, Bool, true, false, not, ◌&&◌, le→ltb, [], ◌∷◌, arith, some,
  Text, byte_len, is_empty, take, All,
}
use cake_splitter.Format.Manifest.{External}
use cake_splitter.Runtime.Record.{TaskRecord, TaskFailure, bounded_failure, truncate}
use cake_splitter.Runtime.Shape.{is_bad_failure, has_bad_failure}

abbrev pub IsAscii : Text → Type 0
IsAscii s = All (λ ch. ch < 128) s

byte_len-take : (n : ℕ) (s : Text) → IsAscii s → byte_len (take n s) ≤ n
byte_len-take zero s ascii = omega arith
byte_len-take (suc n) [] ascii = omega arith
byte_len-take (suc n) (ch ∷ s) (small, ascii) = ground (arith, small, byte_len-take n s ascii)

no_time : (b : Bool) → (not b && false) ≡ false
no_time b = ground arith

good_failure :
    (x : External) (f : TaskFailure)
    → is_empty f.code ≡ false
    → byte_len f.code ≤ 80
    → byte_len f.message ≤ 2_000
    → byte_len f.technical_message ≤ 2_000
    → x.rfc3339_parses f.occurred_at ≡ true
    → is_bad_failure x f ≡ false
unfolding is_bad_failure
good_failure x f some_code short_code short short_technical parses =
    rw (some_code, le→ltb _ _ short_code, le→ltb _ _ short, le→ltb _ _ short_technical, parses)
      (no_time (is_empty f.occurred_at))

only_failure :
    (x : External) (r : TaskRecord) (f : TaskFailure)
    → is_bad_failure x f ≡ false
    → has_bad_failure x (record r { failure = some f; failure_history = [] }) ≡ false
unfolding has_bad_failure
only_failure x r f good = rw good refl

code_kept : (code : Text) → is_empty code ≡ false → is_empty (take 80 code) ≡ false
code_kept [] some_code = cc some_code
code_kept (ch ∷ code) some_code = refl

-- A bounded failure of an ASCII code that is not empty and an ASCII message is accepted, however long
-- they are, at a time that parses.
pub bounded_failure-accepted :
    (x : External) (now code message : Text) (r : TaskRecord)
    → x.rfc3339_parses now ≡ true
    → is_empty code ≡ false
    → IsAscii code
    → IsAscii message
    → has_bad_failure x
        (record r { failure = some (bounded_failure now code message); failure_history = [] })
      ≡ false
unfolding bounded_failure truncate
bounded_failure-accepted x now code message r parses some_code ascii_code ascii =
    only_failure x r (bounded_failure now code message) (
      good_failure x (bounded_failure now code message) (code_kept code some_code)
        (byte_len-take 80 code ascii_code) (byte_len-take 2_000 message ascii)
        (byte_len-take 2_000 message ascii) parses)
