-- ===== src/Core/Enumeration/Unexpected.antt =====
-- `unexpected_from_names` against a filter and a test of the length.
use mathlib.Core.List.{append-nil, append_assoc}
use cake_splitter.Prelude.{
  ◌+◌, ◌≤◌, ◌≡◌, ap, sym, ◌∙◌, List, [], ◌∷◌, ◌++◌, arith, Text, codes, length, length-append, leb,
  text_mem, ok, err, if◌then◌else◌, Bool-cases, inl, inr, Result,
}
use cake_splitter.Core.Error.{CoreError, package_enumeration_limit}
use cake_splitter.Core.Enumeration.{unexpected_loop, unexpected_from_names, max_diagnostic_entries}

-- `names` less those that are expected
unfoldable pub not_expected : List Text → List Text → List Text
not_expected expected [] = []
not_expected expected (n ∷ ns) =
    let rest = not_expected expected ns in if text_mem n expected then rest else n ∷ rest

abbrev pub too_many : CoreError
too_many =
    package_enumeration_limit (codes "unexpected Slice diagnostic count") max_diagnostic_entries

-- what the loop owes for the names left
abbrev outcome : List Text → List Text → Result CoreError (List Text)
outcome found rest =
    if leb (length found + length rest) max_diagnostic_entries
    then ok (found ++ rest)
    else err too_many

keep_one :
    (found rest : List Text) (n : Text) → outcome (found ++ n ∷ []) rest ≡ outcome found (n ∷ rest)
keep_one found rest n = rw append_assoc (
    ap (λ k. if leb k max_diagnostic_entries then ok (found ++ n ∷ rest) else err too_many)
      (omega (arith, length-append found (n ∷ []))))

full :
    (found rest : List Text) (n : Text)
    → max_diagnostic_entries ≤ length found
    → outcome found (n ∷ rest) ≡ err too_many
full found rest n h = ground arith

unexpected_loop_lem :
    (expected found names : List Text)
    → length found ≤ max_diagnostic_entries
    → unexpected_loop expected found names ≡ outcome found (not_expected expected names)
unfolding unexpected_loop not_expected
unexpected_loop_lem expected found [] h = rw append-nil (ground arith)
unexpected_loop_lem expected found (n ∷ ns) h = elim (Bool-cases (text_mem n expected)) [
  | inl known ↦ rw (known, unexpected_loop, not_expected) (unexpected_loop_lem expected found ns h)
  | inr new ↦ elim (Bool-cases (leb max_diagnostic_entries (length found))) [
    | inl no_room ↦
        rw (new, no_room, unexpected_loop, not_expected)
          (sym (full found (not_expected expected ns) n (ground arith)))
    | inr room ↦
        rw (new, room, unexpected_loop, not_expected)
          (unexpected_loop_lem expected (found ++ n ∷ []) ns
              (ground (arith, length-append found (n ∷ []), room))
            ∙ keep_one found (not_expected expected ns) n)
  ]
]

-- The names beyond the expected ones are returned, all of them in their order, if they are at most
-- 1,024; otherwise the call fails with that limit.
pub unexpected_from_names_lem :
    (names expected : List Text)
    → unexpected_from_names names expected ≡ (
        if leb (length (not_expected expected names)) max_diagnostic_entries
        then ok (not_expected expected names)
        else err too_many)
unfolding unexpected_from_names
unexpected_from_names_lem names expected =
    unexpected_loop_lem expected [] names (omega arith)
    ∙ ap
        (λ k.
          if leb k max_diagnostic_entries then ok (not_expected expected names) else err too_many)
        (omega arith)
