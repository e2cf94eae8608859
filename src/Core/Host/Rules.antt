-- ===== src/Core/Host/Rules.antt =====
-- A rule for each call, for a call that is followed by the rest of a block.
use cake_splitter.Prelude.{ℕ, ◌≡◌, refl, Bool, true, false, none, some, Result, ok, err, reject_if}
use cake_splitter.Core.Error.{CoreError, FilePath}
use cake_splitter.Core.Host.{
  Node, World, M, ◌>>=◌, ◌>>◌, lift, update, new_node, check_cancelled, call, open_file,
  ensure_absent, create_new,
}
use cake_splitter.Core.Host.Sound.{
  Held, Kept, Sound, Sound-bind, Same, check_cancelled-Sound, call-Sound, open_file-Sound,
  ensure_absent-Sound, create_new-Sound,
}

module _ {A B : Type 0} (held : Held) (R : B → World → Type 0) (w : World)
    (kept : Kept held w.files) where
  pub Sound-lift :
      (r : Result CoreError A) (f : A → M B)
      → ((a : A) → r ≡ ok a → Sound held R (f a w))
      → Sound held R ((lift r >>= f) w)
  Sound-lift (ok a) f next = next a refl
  Sound-lift (err e) f next = kept

  -- a step that leaves the files alone
  pub Sound-Same :
      (m : M A) (f : A → M B)
      → Sound held (λ _ w'. Same w w') (m w)
      → ((a : A) (w' : World) → Kept held w'.files → Same w w' → Sound held R (f a w'))
      → Sound held R ((m >>= f) w)
  Sound-Same m f first next = Sound-bind held (λ _ w'. Same w w') R (m w) f first next

-- the last step of a block
pub Sound-last_lift :
    {A : Type 0} (held : Held) (R : A → World → Type 0) (w : World) (r : Result CoreError A)
    → Kept held w.files
    → ((a : A) → r ≡ ok a → R a w)
    → Sound held R (lift r w)
Sound-last_lift held R w (ok a) kept last = (kept, last a refl)
Sound-last_lift held R w (err e) kept last = kept

pub Sound-last_reject :
    (held : Held) (R : Unit {0} → World → Type 0) (w : World) (test : Bool) (e : CoreError)
    → Kept held w.files
    → (test ≡ false → R tt w)
    → Sound held R (lift (reject_if test e) w)
Sound-last_reject held R w true e kept last = kept
Sound-last_reject held R w false e kept last = (kept, last refl)

module _ {B : Type 0} (held : Held) (R : B → World → Type 0) (w : World)
    (kept : Kept held w.files) where
  pub Sound-reject :
      (test : Bool) (e : CoreError) (k : M B)
      → (test ≡ false → Sound held R (k w))
      → Sound held R ((lift (reject_if test e) >> k) w)
  Sound-reject true e k next = kept
  Sound-reject false e k next = next refl

  pub Sound-check_cancelled :
      (k : M B)
      → ((w' : World) → Kept held w'.files → Same w w' → Sound held R (k w'))
      → Sound held R ((check_cancelled >> k) w)
  Sound-check_cancelled k next =
      Sound-bind held (λ _ w'. Same w w') R (check_cancelled w) _
        (check_cancelled-Sound held w kept) λ _ w1 kept1 same. next w1 kept1 same

  pub Sound-call :
      (path : FilePath) (k : M B)
      → ((w' : World) → Kept held w'.files → Same w w' → Sound held R (k w'))
      → Sound held R ((call path >> k) w)
  Sound-call path k next =
      Sound-bind held (λ _ w'. Same w w') R (call path w) _ (call-Sound held w kept path)
        λ _ w1 kept1 same. next w1 kept1 same

  pub Sound-ensure_absent :
      (path : FilePath) (k : M B)
      → ((w' : World) → Kept held w'.files → Same w w' → w.files path ≡ none → Sound held R (k w'))
      → Sound held R ((ensure_absent path >> k) w)
  Sound-ensure_absent path k next =
      Sound-bind held (λ _ w'. Same w w' × (w.files path ≡ none)) R (ensure_absent path w) _
        (ensure_absent-Sound held w kept path) λ _ w1 kept1 (same, free). next w1 kept1 same free

  pub Sound-open_file :
      (path : FilePath) (f : Node → M B)
      → ((node : Node) (w' : World)
          → Kept held w'.files
          → Same w w'
          → w.files path ≡ some node
          → Sound held R (f node w'))
      → Sound held R ((open_file path >>= f) w)
  Sound-open_file path f next =
      Sound-bind held (λ node w'. Same w w' × (w.files path ≡ some node)) R (open_file path w) f
        (open_file-Sound held w kept path)
        λ node w1 kept1 (same, here). next node w1 kept1 same here

  pub Sound-create_new :
      (path : FilePath) (k : M B)
      → ((w' : World) (n : ℕ)
          → Kept held w'.files
          → w.files path ≡ none
          → w'.files ≡ update w.files path (some (new_node n))
          → Sound held R (k w'))
      → Sound held R ((create_new path >> k) w)
  Sound-create_new path k next =
      Sound-bind held
        (λ _ w'.
          (w.files path ≡ none) × (n : ℕ) × (w'.files ≡ update w.files path (some (new_node n))))
        R (create_new path w) _ (create_new-Sound held w kept path)
        λ _ w1 kept1 (free, n, made). next w1 n kept1 free made
