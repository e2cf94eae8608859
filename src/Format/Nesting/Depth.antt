-- ===== src/Format/Nesting/Depth.antt =====
-- The scan against a description in two steps: the brackets outside strings, then their depth.
use cake_splitter.Prelude.{
  ℕ, ◌+◌, ◌-◌, max, ◌≤◌, ◌≡◌, true, false, ◌||◌, List, [], ◌∷◌, arith, ◌==◌, ltb, is_err, err, refl,
  if◌then◌else◌,
}
use cake_splitter.Format.Manifest.{json_nesting_too_deep, max_json_nesting}
use cake_splitter.Format.Nesting.{nesting_loop, validate_json_nesting}

pub data Bracket : Type 0 where
  opening closing : Bracket

-- what lies outside the string literals: `lex` between them, `lex_string` inside one
unfoldable mutual
  pub lex : List ℕ → List Bracket
  lex [] = []
  lex (c ∷ cs) =
      let rest = lex cs in
      let literal = lex_string cs in
      if c == 34
      then literal
      else if c == b'{' || c == b'['
      then opening ∷ rest
      else if c == b'}' || c == b']'
      then closing ∷ rest
      else rest

  pub lex_string : List ℕ → List Bracket
  lex_string [] = []
  lex_string (c ∷ []) = []
  lex_string (c ∷ d ∷ cs) =
      let skipped = lex_string cs in
      let rest = lex_string (d ∷ cs) in
      let outside = lex (d ∷ cs) in if c == 92 then skipped else if c == 34 then outside else rest

-- the deepest level reached from `depth`; a stray closing bracket is ignored
unfoldable pub deepest : ℕ → List Bracket → ℕ
deepest depth [] = depth
deepest depth (opening ∷ bs) = max depth (deepest (depth + 1) bs)
deepest depth (closing ∷ bs) = max depth (deepest (depth - 1) bs)

pub depth-le-deepest : (depth : ℕ) (bs : List Bracket) → depth ≤ deepest depth bs
unfolding deepest
depth-le-deepest depth [] = omega arith
depth-le-deepest depth (opening ∷ bs) = omega arith
depth-le-deepest depth (closing ∷ bs) = omega arith

-- one byte outside the strings
loop-cons :
    (depth c : ℕ) (cs : List ℕ)
    → nesting_loop depth false false (c ∷ cs) ≡ (
        if c == 34
        then nesting_loop depth true false cs
        else if c == b'{' || c == b'['
        then (if ltb max_json_nesting (depth + 1)
            then err json_nesting_too_deep
            else nesting_loop (depth + 1) false false cs)
        else if c == b'}' || c == b']'
        then nesting_loop (depth - 1) false false cs
        else nesting_loop depth false false cs)
unfolding nesting_loop
loop-cons depth c cs = refl

lex-cons :
    (c : ℕ) (cs : List ℕ)
    → lex (c ∷ cs) ≡ (
        if c == 34
        then lex_string cs
        else if c == b'{' || c == b'['
        then opening ∷ lex cs
        else if c == b'}' || c == b']'
        then closing ∷ lex cs
        else lex cs)
unfolding lex
lex-cons c cs = refl

-- two bytes inside a string: a backslash takes both
loop_string-cons :
    (depth c d : ℕ) (cs : List ℕ)
    → nesting_loop depth true false (c ∷ d ∷ cs) ≡ (
        if c == 92
        then nesting_loop depth true false cs
        else if c == 34
        then nesting_loop depth false false (d ∷ cs)
        else nesting_loop depth true false (d ∷ cs))
unfolding nesting_loop
loop_string-cons depth c d cs = refl

lex_string-cons :
    (c d : ℕ) (cs : List ℕ)
    → lex_string (c ∷ d ∷ cs)
      ≡ (if c == 92 then lex_string cs else if c == 34 then lex (d ∷ cs) else lex_string (d ∷ cs))
unfolding lex
lex_string-cons c d cs = refl

-- at most one byte is left
loop_end :
    (depth c : ℕ)
    → depth ≤ max_json_nesting
    → (is_err (nesting_loop depth false false []) ≡ ltb max_json_nesting (deepest depth (lex [])))
      × (is_err (nesting_loop depth true false [])
          ≡ ltb max_json_nesting (deepest depth (lex_string [])))
      × (is_err (nesting_loop depth true false (c ∷ []))
          ≡ ltb max_json_nesting (deepest depth (lex_string (c ∷ []))))
unfolding nesting_loop lex deepest
loop_end depth c h = (ground arith, ground arith, ground arith)

mutual
  unfolding deepest

  outside_loop :
      (depth : ℕ) (bytes : List ℕ)
      → depth ≤ max_json_nesting
      → is_err (nesting_loop depth false false bytes)
        ≡ ltb max_json_nesting (deepest depth (lex bytes))
  outside_loop depth [] h = (loop_end depth 0 h).0
  outside_loop depth (c ∷ cs) h =
      rw (loop-cons, lex-cons)
        (ground (
          arith,
          depth-le-deepest (depth + 1) (lex cs),
          depth-le-deepest (depth - 1) (lex cs),
          inside_loop depth cs h,
          outside_loop (depth + 1) cs,
          outside_loop (depth - 1) cs,
          outside_loop depth cs h,
        ))

  inside_loop :
      (depth : ℕ) (bytes : List ℕ)
      → depth ≤ max_json_nesting
      → is_err (nesting_loop depth true false bytes)
        ≡ ltb max_json_nesting (deepest depth (lex_string bytes))
  inside_loop depth [] h = (loop_end depth 0 h).1
  inside_loop depth (c ∷ []) h = (loop_end depth c h).2
  inside_loop depth (c ∷ d ∷ cs) h =
      rw (loop_string-cons, lex_string-cons)
        (ground (
          arith,
          inside_loop depth cs h,
          inside_loop depth (d ∷ cs) h,
          outside_loop depth (d ∷ cs) h,
        ))

-- The scan fails exactly when the brackets outside string literals go more than sixteen deep.
pub nesting_lem :
    (json : List ℕ)
    → is_err (validate_json_nesting json) ≡ ltb max_json_nesting (deepest 0 (lex json))
unfolding validate_json_nesting
nesting_lem json = outside_loop 0 json (omega arith)
