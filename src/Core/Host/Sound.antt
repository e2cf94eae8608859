-- ===== src/Core/Host/Sound.antt =====
-- Reasoning about calls: which files they keep, and what holds when they succeed.
use cake_splitter.Prelude.{
  ℕ, ◌≤◌, ◌≡◌, refl, subst, false, min, max, List, [], ◌∷◌, ◌++◌, arith, Option, none, some, Result,
  ok, err, take, drop, Bool-cases, Option-cases, inl, inr,
}
use cake_splitter.Core.Error.{CoreError, FilePath}
use cake_splitter.Core.Integrity.{Bytes}
use cake_splitter.Core.Path.{path_eq, path_eq→eq}
use cake_splitter.Core.Host.{
  head_event, Node, Files, update, World, M, and_then, new_node, check_cancelled, call, open_file,
  ensure_absent, create_new, write_all, write_to, read_at, rename_no_replace, remove_file,
  without_file,
}

-- the files that a call has to keep
abbrev pub Held : Type 0
Held = List (FilePath × Node)

abbrev pub Kept : Held → Files → Type 0
Kept [] files = Unit
Kept ((path, node) ∷ held) files = (files path ≡ some node) × Kept held files

-- a path that is none of theirs
abbrev pub Fresh : FilePath → Held → Type 0
Fresh p [] = Unit
Fresh p ((q, node) ∷ held) = (path_eq p q ≡ false) × Fresh p held

pub Fresh-of_absent :
    (p : FilePath) (held : Held) (files : Files) → Kept held files → files p ≡ none → Fresh p held
Fresh-of_absent p [] files kept absent = tt
Fresh-of_absent p ((q, node) ∷ held) files (here, kept) absent = (
  elim (Bool-cases (path_eq p q)) [
    | inl same ↦ absurd (cc (subst (λ r. files r ≡ none) (path_eq→eq p q same) absent, here))
    | inr other ↦ other
  ],
  Fresh-of_absent p held files kept absent,
)

pub Kept-update :
    (p : FilePath) (node : Option Node) (held : Held) (files : Files)
    → Fresh p held
    → Kept held files
    → Kept held (update files p node)
Kept-update p content [] files fresh kept = tt
Kept-update p content ((q, n) ∷ held) files (other, fresh) (here, kept) =
    (rw other here, Kept-update p content held files fresh kept)

-- Success or failure, the held files are kept; after a success the postcondition holds.
ok_injective : {A : Type 0} {a b : A} → Path (Result CoreError A) (ok a) (ok b) → a ≡ b
ok_injective e = cc

abbrev pub Sound : {A : Type 0} → Held → (A → World → Type 0) → Result CoreError A × World → Type 0
Sound held Q (ok a, w) = Kept held w.files × Q a w
Sound held Q (err e, w) = Kept held w.files

pub Sound-bind :
    {A B : Type 0} (held : Held) (Q : A → World → Type 0) (R : B → World → Type 0)
    (r : Result CoreError A × World) (f : A → M B)
    → Sound held Q r
    → ((a : A) (w : World) → Kept held w.files → Q a w → Sound held R (f a w))
    → Sound held R (and_then r f)
Sound-bind held Q R (ok a, w) f (kept, q) next = next a w kept q
Sound-bind held Q R (err e, w) f kept next = kept

-- a weaker postcondition
pub Sound-map :
    {A : Type 0} (held : Held) (Q R : A → World → Type 0) (r : Result CoreError A × World)
    → Sound held Q r
    → ((a : A) (w : World) → Q a w → R a w)
    → Sound held R r
Sound-map held Q R (ok a, w) (kept, q) next = (kept, next a w q)
Sound-map held Q R (err e, w) kept next = kept

-- held files may be dropped
pub Sound-tail :
    {A : Type 0} (p : FilePath) (n : Node) (held : Held) (Q : A → World → Type 0)
    (r : Result CoreError A × World)
    → Sound ((p, n) ∷ held) Q r
    → Sound held Q r
Sound-tail p n held Q (ok a, w) ((here, kept), q) = (kept, q)
Sound-tail p n held Q (err e, w) (here, kept) = kept

-- what holds after a success, and the files that are kept after any end
pub Sound-ok :
    {A : Type 0} (held : Held) (Q : A → World → Type 0) (r : Result CoreError A × World) (a : A)
    → Sound held Q r
    → r.0 ≡ ok a
    → Q a r.1
Sound-ok held Q (ok b, w) a (kept, q) e = subst (λ c. Q c w) (ok_injective e) q
Sound-ok held Q (err e, w) a kept h = cc

pub Sound-Kept :
    {A : Type 0} (held : Held) (Q : A → World → Type 0) (r : Result CoreError A × World)
    → Sound held Q r
    → Kept held r.1.files
Sound-Kept held Q (ok a, w) (kept, q) = kept
Sound-Kept held Q (err e, w) kept = kept

-- files that are held longer than the rest of the block needs them
pub Sound-drop :
    {A : Type 0} (more held : Held) (Q : A → World → Type 0) (r : Result CoreError A × World)
    → Sound (more ++ held) Q r
    → Sound held Q r
Sound-drop [] held Q r sound = sound
Sound-drop ((p, n) ∷ more) held Q r sound =
    Sound-drop more held Q r (Sound-tail p n (more ++ held) Q r sound)

-- two continuations that agree after a success
pub and_then-ext :
    {A B : Type 0} (held : Held) (Q : A → World → Type 0) (r : Result CoreError A × World)
    (f g : A → M B)
    → Sound held Q r
    → ((a : A) (w : World) → Kept held w.files → Q a w → f a w ≡ g a w)
    → and_then r f ≡ and_then r g
and_then-ext held Q (ok a, w) f g (kept, q) agree = agree a w kept q
and_then-ext held Q (err e, w) f g kept agree = refl

-- the files are the same
abbrev pub Same : World → World → Type 0
Same w w' = w'.files ≡ w.files

module _ (held : Held) (w : World) (kept : Kept held w.files) where
  pub check_cancelled-Sound : Sound held (λ _ w'. Same w w') (check_cancelled w)
  unfolding check_cancelled
  check_cancelled-Sound = ground arith

  pub call-Sound : (p : FilePath) → Sound held (λ _ w'. Same w w') (call p w)
  unfolding call
  call-Sound p = ground arith

  pub open_file-Sound :
      (p : FilePath) → Sound held (λ node w'. Same w w' × (w.files p ≡ some node)) (open_file p w)
  unfolding open_file
  open_file-Sound p = ground arith

  pub ensure_absent-Sound :
      (p : FilePath) → Sound held (λ _ w'. Same w w' × (w.files p ≡ none)) (ensure_absent p w)
  unfolding ensure_absent
  ensure_absent-Sound p = ground arith

  pub read_at-Sound :
      (p : FilePath) (position limit : ℕ)
      → Sound held
          (λ bytes w'.
            Same w w'
            × (node : Node) × (w.files p ≡ some node)
            × (k : ℕ) × (1 ≤ k)
            × (bytes ≡ take (min limit k) (drop position node.content)))
          (read_at p position limit w)
  unfolding read_at
  read_at-Sound p position limit = elim (Option-cases (head_event w.tape).failure) [
    | inr (e, broken) ↦ rw (broken, read_at) kept
    | inl whole ↦ elim (Option-cases (w.files p)) [
      | inl gone ↦ rw (whole, gone, read_at) kept
      | inr (node, here) ↦
          rw (whole, here, read_at)
            (kept, (refl, node, here, max 1 (head_event w.tape).amount, omega arith, refl))
    ]
  ]

  pub create_new-Sound :
      (p : FilePath)
      → Sound held
          (λ _ w'. (w.files p ≡ none) × (n : ℕ) × (w'.files ≡ update w.files p (some (new_node n))))
          (create_new p w)
  unfolding create_new
  create_new-Sound p = elim (Option-cases (head_event w.tape).failure) [
    | inr (e, broken) ↦ rw (broken, create_new) kept
    | inl whole ↦ elim (Option-cases (w.files p)) [
      | inr (node, here) ↦ rw (whole, here, create_new) kept
      | inl free ↦
          rw (whole, free, create_new)
            (
              Kept-update p (some (new_node w.next_file)) held w.files
                  (Fresh-of_absent p held w.files kept free) kept,
              (free, w.next_file, refl),
            )
    ]
  ]

  pub write_all-Sound :
      (p : FilePath) (bytes : Bytes)
      → Fresh p held
      → Sound held
          (λ _ w'.
            (node : Node) × (w.files p ≡ some node)
            × (w'.files
                ≡ update w.files p (some (record node { content = node.content ++ bytes }))))
          (write_all p bytes w)
  unfolding write_all
  write_all-Sound p bytes fresh = elim (Option-cases (w.files p)) [
    | inl gone ↦ rw (gone, write_to) kept
    | inr (node, here) ↦ elim (Option-cases (head_event w.tape).failure) [
      | inl whole ↦
          rw (here, whole, write_to)
            (
              Kept-update p (some (record node { content = node.content ++ bytes })) held w.files
                  fresh kept,
              (node, here, refl),
            )
      | inr (e, broken) ↦ rw (here, broken, write_to) (Kept-update p _ held w.files fresh kept)
    ]
  ]

  -- the old name is free afterwards
  pub rename_no_replace-Sound :
      (from to : FilePath)
      → Fresh from held
      → Sound held
          (λ _ w'.
            (node : Node) × (w.files from ≡ some node)
            × (w.files to ≡ none)
            × (w'.files ≡ update (update w.files from none) to (some node)))
          (rename_no_replace from to w)
  unfolding rename_no_replace
  rename_no_replace-Sound from to fresh = elim (Option-cases (head_event w.tape).failure) [
    | inr (e, broken) ↦ rw (broken, rename_no_replace) kept
    | inl whole ↦ elim (Option-cases (w.files from)) [
      | inl gone ↦ rw (whole, gone, rename_no_replace) kept
      | inr (node, here) ↦ elim (Option-cases (w.files to)) [
        | inr (other, taken) ↦ rw (whole, here, taken, rename_no_replace) kept
        | inl free ↦
            rw (whole, here, free, rename_no_replace)
              (
                Kept-update to (some node) held (update w.files from none)
                    (Fresh-of_absent to held w.files kept free)
                    (Kept-update from none held w.files fresh kept),
                (node, here, free, refl),
              )
      ]
    ]
  ]

  pub remove_file-Sound :
      (p : FilePath) → Fresh p held → Sound held (λ _ w'. Unit) (remove_file p w)
  unfolding remove_file
  remove_file-Sound p fresh = elim (Option-cases (head_event w.tape).failure) [
    | inr (e, broken) ↦ rw (broken, remove_file, without_file) (kept, tt)
    | inl whole ↦
        rw (whole, remove_file, without_file) (Kept-update p none held w.files fresh kept, tt)
  ]
