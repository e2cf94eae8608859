-- ===== src/Core/Split/Separate.antt =====
-- Staged files that stand beside each other, and their publication.
use cake_splitter.Prelude.{
  ◌≡◌, refl, sym, ap, ◌∙◌, false, List, [], ◌∷◌, ◌++◌, none, some, Text, Result, ok, err,
  Bool-cases, inl, inr,
}
use cake_splitter.Core.Error.{CoreError, FilePath}
use cake_splitter.Core.Integrity.{Bytes}
use cake_splitter.Core.Path.{path_eq, path_eq→eq, path_eq_refl}
use cake_splitter.Core.Host.{Node, Files, World}
use cake_splitter.Core.Host.Sound.{
  Held, Kept, Fresh, Fresh-of_absent, Sound, Sound-bind, Sound-map, Sound-tail,
}
use cake_splitter.Core.Stream.Hashed.{some_injective}
use cake_splitter.Core.Publish.{StagedOutput, finalize_staged_output}
use cake_splitter.Core.Publish.Final.{same-at, Published, finalize_staged_output-Sound}
use cake_splitter.Core.Split.{publish}

-- the staged files under their temporary names, and under their final ones
abbrev pub partials : List StagedOutput → List Node → Held
partials (o ∷ os) (n ∷ ns) = (o.partial_path, n) ∷ partials os ns
partials os ns = []

abbrev pub finals : List StagedOutput → List Node → Held
finals (o ∷ os) (n ∷ ns) = (o.final_path, n) ∷ finals os ns
finals os ns = []

-- each temporary name differs from the later ones and from those of the held files
abbrev pub Separate : Held → List StagedOutput → List Node → Type 0
Separate held [] [] = Unit
Separate held (o ∷ os) (n ∷ ns) =
    Fresh o.partial_path (partials os ns ++ held) × Separate held os ns
Separate held [] (n ∷ ns) = ⊥
Separate held (o ∷ os) [] = ⊥

pub path_eq-sym : (p q : FilePath) → path_eq p q ≡ false → path_eq q p ≡ false
path_eq-sym p q other = elim (Bool-cases (path_eq q p)) [
  | inr apart ↦ apart
  | inl same ↦
      let agree = ap (λ r. path_eq p r) (path_eq→eq q p same) ∙ path_eq_refl p in absurd (cc agree)
]

pub Kept-split :
    (xs ys : Held) (files : Files) → Kept (xs ++ ys) files → Kept xs files × Kept ys files
Kept-split [] ys files kept = (tt, kept)
Kept-split ((p, n) ∷ xs) ys files (here, kept) =
    let parts = Kept-split xs ys files kept in ((here, parts.0), parts.1)

pub Kept-join :
    (xs ys : Held) (files : Files) → Kept xs files → Kept ys files → Kept (xs ++ ys) files
Kept-join [] ys files kept others = others
Kept-join ((p, n) ∷ xs) ys files (here, kept) others = (here, Kept-join xs ys files kept others)

Fresh-split : (p : FilePath) (xs ys : Held) → Fresh p (xs ++ ys) → Fresh p xs × Fresh p ys
Fresh-split p [] ys fresh = (tt, fresh)
Fresh-split p ((q, n) ∷ xs) ys (other, fresh) =
    let parts = Fresh-split p xs ys fresh in ((other, parts.0), parts.1)

Fresh-join : (p : FilePath) (xs ys : Held) → Fresh p xs → Fresh p ys → Fresh p (xs ++ ys)
Fresh-join p [] ys fresh others = others
Fresh-join p ((q, n) ∷ xs) ys (other, fresh) others = (other, Fresh-join p xs ys fresh others)

-- a held file's name differs from the temporary names
Separate-Fresh :
    (p : FilePath) (n : Node) (held : Held) (os : List StagedOutput) (ns : List Node)
    → Separate ((p, n) ∷ held) os ns
    → Fresh p (partials os ns)
Separate-Fresh p n held [] ns separate = tt
Separate-Fresh p n held (o ∷ os) [] separate = absurd separate
Separate-Fresh p n held (o ∷ os) (m ∷ ns) (fresh, separate) = (
  path_eq-sym o.partial_path p
      (Fresh-split o.partial_path (partials os ns) ((p, n) ∷ held) fresh).1.0,
  Separate-Fresh p n held os ns separate,
)

Separate-drop :
    (p : FilePath) (n : Node) (held : Held) (os : List StagedOutput) (ns : List Node)
    → Separate ((p, n) ∷ held) os ns
    → Separate held os ns
Separate-drop p n held [] [] separate = tt
Separate-drop p n held [] (m ∷ ns) separate = absurd separate
Separate-drop p n held (o ∷ os) [] separate = absurd separate
Separate-drop p n held (o ∷ os) (m ∷ ns) (fresh, separate) =
    let parts = Fresh-split o.partial_path (partials os ns) ((p, n) ∷ held) fresh in
    (
      Fresh-join o.partial_path (partials os ns) held parts.0 parts.1.1,
      Separate-drop p n held os ns separate,
    )

-- one more staged file, made before the others
pub Separate-cons :
    (o : StagedOutput) (n : Node) (held : Held) (os : List StagedOutput) (ns : List Node)
    → Fresh o.partial_path held
    → Separate ((o.partial_path, n) ∷ held) os ns
    → Separate held (o ∷ os) (n ∷ ns)
Separate-cons o n held os ns fresh separate = (
  Fresh-join o.partial_path (partials os ns) held
      (Separate-Fresh o.partial_path n held os ns separate) fresh,
  Separate-drop o.partial_path n held os ns separate,
)

-- a file at a name that was free while the staged files were there
Separate-add :
    (p : FilePath) (n : Node) (held : Held) (files : Files) (os : List StagedOutput)
    (ns : List Node)
    → Kept (partials os ns) files
    → files p ≡ none
    → Separate held os ns
    → Separate ((p, n) ∷ held) os ns
Separate-add p n held files [] [] kept free separate = tt
Separate-add p n held files [] (m ∷ ns) kept free separate = absurd separate
Separate-add p n held files (o ∷ os) [] kept free separate = absurd separate
Separate-add p n held files (o ∷ os) (m ∷ ns) (here, kept) free (fresh, separate) =
    let parts = Fresh-split o.partial_path (partials os ns) held fresh in
    let apart = Fresh-of_absent p ((o.partial_path, m) ∷ []) files (here, tt) free in
    (
      Fresh-join o.partial_path (partials os ns) ((p, n) ∷ held) parts.0
          (path_eq-sym p o.partial_path apart.0, parts.1),
      Separate-add p n held files os ns kept free separate,
    )

-- a success has kept the held files too
pub Sound-also :
    {A : Type 0} (more held : Held) (Q : A → World → Type 0) (r : Result CoreError A × World)
    → Sound (more ++ held) Q r
    → Sound held (λ a w. Q a w × Kept (more ++ held) w.files) r
Sound-also more held Q (ok a, w) (kept, q) = ((Kept-split more held w.files kept).1, (q, kept))
Sound-also more held Q (err e, w) kept = (Kept-split more held w.files kept).1

-- each output under its final name
pub publish-finals :
    (sha256 : Bytes → Text) (held : Held) (os : List StagedOutput) (ns : List Node) (w : World)
    → Kept (partials os ns ++ held) w.files
    → Separate held os ns
    → Sound held (λ _ w'. Kept (finals os ns) w'.files) (publish sha256 os w)
unfolding publish
publish-finals sha256 held [] [] w kept separate = (kept, tt)
publish-finals sha256 held [] (n ∷ ns) w kept separate = absurd separate
publish-finals sha256 held (o ∷ os) [] w kept separate = absurd separate
publish-finals sha256 held (o ∷ os) (n ∷ ns) w (here, kept) (fresh, separate) =
    let all = partials os ns ++ held in
    let R : Unit {0} → World → Type 0 = (λ _ w'. Kept (finals (o ∷ os) (n ∷ ns)) w'.files) in
    Sound-bind held (λ a w1. Published sha256 all o w a w1 × Kept all w1.files) R
      (finalize_staged_output sha256 o w) _
      (Sound-also (partials os ns) held (Published sha256 all o w)
        (finalize_staged_output sha256 o w)
        (finalize_staged_output-Sound sha256 all o w kept fresh))
      λ _ w1 kept1 ((node, found, free, _, wrote), all1).
        let moved = same-at o.final_path wrote ∙ rw (path_eq_refl o.final_path) refl in
        let there = moved ∙ ap some (some_injective (sym found ∙ here)) in
        let parts = Kept-split (partials os ns) held w1.files all1 in
        let before = Kept-split (partials os ns) held w.files kept in
        Sound-tail o.final_path n held R (publish sha256 os w1) (
          Sound-map ((o.final_path, n) ∷ held)
            (λ _ w'. Kept (finals os ns) w'.files × Kept ((o.final_path, n) ∷ held) w'.files) R
            (publish sha256 os w1)
            (Sound-also [] ((o.final_path, n) ∷ held) (λ _ w'. Kept (finals os ns) w'.files)
              (publish sha256 os w1)
              (publish-finals sha256 ((o.final_path, n) ∷ held) os ns w1
                (Kept-join (partials os ns) ((o.final_path, n) ∷ held) w1.files parts.0
                  (there, parts.1))
                (Separate-add o.final_path n held w.files os ns before.0 free separate)))
            λ _ w2 (last, others). (others.0, last))
