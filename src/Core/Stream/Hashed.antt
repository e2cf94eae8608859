-- ===== src/Core/Stream/Hashed.antt =====
-- `hash_reader`: the digest that it returns.
use mathlib.Core.List.{append-nil, append_assoc}
use cake_splitter.Prelude.{
  ℕ, zero, suc, ◌+◌, ◌≤◌, ◌≡◌, refl, sym, ap, ◌∙◌, min, List, [], ◌∷◌, ◌++◌, arith, some, ok, Text,
  length, take, drop,
}
use cake_splitter.Core.Error.{FilePath}
use cake_splitter.Core.Integrity.{Bytes, Sha256State, new, update, finish}
use cake_splitter.Core.Host.{
  Node, World, M, ◌>>=◌, ◌>>◌, check_cancelled, default_buffer_size, read_at,
}
use cake_splitter.Core.Host.Sound.{
  Held, Kept, Sound, Sound-bind, Sound-map, Sound-ok, Same, check_cancelled-Sound, read_at-Sound,
}
use cake_splitter.Core.Stream.{size_of, if_read, hash_loop, hash_reader}

pub some_injective : {A : Type 0} {a b : A} → some a ≡ some b → a ≡ b
some_injective e = cc

pub suc_add : (m n : ℕ) → suc m + n ≡ suc (m + n)
suc_add m n = omega arith

drop-nil : {A : Type 0} (n : ℕ) → drop {A = A} n [] ≡ []
drop-nil zero = refl
drop-nil (suc n) = refl

pub drop-add : {A : Type 0} (m n : ℕ) (xs : List A) → drop (m + n) xs ≡ drop n (drop m xs)
drop-add zero n xs = ap (λ m. drop m xs) (omega arith)
drop-add (suc m) n [] = drop-nil (suc m + n) ∙ sym (drop-nil n)
drop-add (suc m) n (x ∷ xs) = ap (λ j. drop j (x ∷ xs)) (suc_add m n) ∙ drop-add m n xs

pub take-drop-length :
    {A : Type 0} (n : ℕ) (xs : List A) → take n xs ++ drop (length (take n xs)) xs ≡ xs
take-drop-length zero xs = refl
take-drop-length (suc n) [] = refl
take-drop-length (suc n) (x ∷ xs) = ap (λ ys. x ∷ ys) (take-drop-length n xs)

take-eq-nil : {A : Type 0} (n : ℕ) (xs : List A) → 1 ≤ n → take n xs ≡ [] → xs ≡ []
take-eq-nil zero xs pos e = absurd (omega (arith, pos))
take-eq-nil (suc n) [] pos e = refl
take-eq-nil (suc n) (x ∷ xs) pos e = cc

-- what is left after a read is what a read took off
pub read-drop :
    {A : Type 0} (n position : ℕ) (xs : List A)
    → take n (drop position xs) ++ drop (position + length (take n (drop position xs))) xs
      ≡ drop position xs
read-drop n position xs =
    ap (λ ys. take n (drop position xs) ++ ys)
      (drop-add position (length (take n (drop position xs))) xs)
    ∙ take-drop-length n (drop position xs)

pub if_read-Sound :
    {A : Type 0} (held : Held) (Q : A → World → Type 0) (bytes : Bytes) (nothing more : M A)
    (w : World)
    → (bytes ≡ [] → Sound held Q (nothing w))
    → (1 ≤ length bytes → Sound held Q (more w))
    → Sound held Q (if_read bytes nothing more w)
if_read-Sound held Q [] nothing more w stop go = stop refl
if_read-Sound held Q (b ∷ bs) nothing more w stop go = go (omega arith)

module _ (held : Held) (path : FilePath) (node : Node) where
  -- one turn, up to the read
  pub Sound-next_bytes :
      {B : Type 0} (Q : B → World → Type 0) (f : Bytes → M B) (limit position : ℕ) (w : World)
      → 1 ≤ limit
      → Kept held w.files
      → w.files path ≡ some node
      → ((bytes : Bytes) (w' : World) (k : ℕ)
          → Kept held w'.files
          → Same w w'
          → 1 ≤ k
          → k ≤ limit
          → bytes ≡ take k (drop position node.content)
          → Sound held Q (f bytes w'))
      → Sound held Q ((check_cancelled >> (read_at path position limit >>= f)) w)
  Sound-next_bytes Q f limit position w room kept here next =
      Sound-bind held (λ _ w1. Same w w1) Q (check_cancelled w) _
        (check_cancelled-Sound held w kept)
        λ _ w1 kept1 same1.
          Sound-bind held _ Q (read_at path position limit w1) f
            (read_at-Sound held w1 kept1 path position limit)
            λ bytes w2 kept2 (same2, n, there, k, pos, cut).
              let same = some_injective (sym there ∙ ap (λ files. files path) same1 ∙ here) in
              next bytes w2 (min limit k) kept2 (same2 ∙ same1) (omega arith) (omega arith)
                (cut ∙ ap (λ m. take (min limit k) (drop position (Node.content m))) same)

  pub bytes_read :
      (k position : ℕ) (absorbed bytes : Bytes)
      → bytes ≡ take k (drop position node.content)
      → (absorbed ++ bytes) ++ drop (position + length bytes) node.content
        ≡ absorbed ++ drop position node.content
  bytes_read k position absorbed bytes cut = rw cut (
      append_assoc absorbed (take k (drop position node.content)) _
      ∙ ap (λ ys. absorbed ++ ys) (read-drop k position node.content))

module _ (sha256 : Bytes → Text) (held : Held) (path : FilePath) (node : Node) where
  pub hash_loop-Sound :
      (fuel position : ℕ) (hasher : Sha256State) (w : World)
      → Kept held w.files
      → w.files path ≡ some node
      → Sound held
          (λ digest w'.
            Same w w' × (digest ≡ sha256 (hasher.absorbed ++ drop position node.content)))
          (hash_loop sha256 fuel path position hasher w)
  unfolding hash_loop update finish
  hash_loop-Sound zero position hasher w kept here = kept
  hash_loop-Sound (suc fuel) position hasher w kept here =
      Sound-next_bytes held path node _ _ default_buffer_size position w (omega arith) kept here
        λ bytes w' k kept' same pos bound cut.
          if_read-Sound held _ bytes _ _ w'
            (λ nothing. (
              kept',
              (
                same,
                ap sha256 (
                    sym (append-nil hasher.absorbed)
                    ∙ ap (λ ys. hasher.absorbed ++ ys)
                        (sym (take-eq-nil k _ pos (sym cut ∙ nothing)))),
              ),
            ))
            λ one.
              Sound-map held _ _ _
                (hash_loop-Sound fuel (position + length bytes) (update hasher bytes) w' kept'
                  (ap (λ files. files path) same ∙ here))
                λ digest w'' (same', whole). (
                  same' ∙ same,
                  whole
                      ∙ ap sha256 (bytes_read held path node k position hasher.absorbed bytes cut),
                )

  pub hash_reader-Sound :
      (w : World)
      → Kept held w.files
      → w.files path ≡ some node
      → Sound held
          (λ digest w'. Same w w' × (digest ≡ sha256 node.content))
          (hash_reader sha256 path w)
  unfolding hash_reader new
  hash_reader-Sound w kept here = hash_loop-Sound (suc (size_of (w.files path))) 0 new w kept here

-- Whatever the sizes of the reads, a digest that `hash_reader` returns is the digest of the file's
-- content.
pub hash_reader_lem :
    (sha256 : Bytes → Text) (path : FilePath) (node : Node) (digest : Text) (w : World)
    → w.files path ≡ some node
    → (hash_reader sha256 path w).0 ≡ ok digest
    → digest ≡ sha256 node.content
hash_reader_lem sha256 path node digest w here success =
    (Sound-ok [] (λ d w'. Same w w' × (d ≡ sha256 node.content)) (hash_reader sha256 path w) digest
      (hash_reader-Sound sha256 [] path node w tt here) success).1
