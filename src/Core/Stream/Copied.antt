-- ===== src/Core/Stream/Copied.antt =====
-- The copy loop: what it appends to its target.
use mathlib.Core.List.{append-nil, append_assoc}
use cake_splitter.Prelude.{
  ℕ, zero, suc, ◌+◌, ◌-◌, ◌≤◌, ◌≡◌, refl, sym, ap, ap₂, length-append, ◌∙◌, min, List, [], ◌∷◌,
  ◌++◌, arith, some, length, length-take, take, drop, subst,
}
use cake_splitter.Core.Error.{FilePath}
use cake_splitter.Core.Integrity.{Bytes, update}
use cake_splitter.Core.Path.{path_eq_refl}
use cake_splitter.Core.Host.{Node, Files, World, M, ◌>>◌, default_buffer_size, write_all}
use cake_splitter.Core.Host.Sound.{Held, Kept, Fresh, Sound, Sound-bind, Sound-map, write_all-Sound}
use cake_splitter.Core.Stream.{Job, Cursor, advance, copy_loop}
use cake_splitter.Core.Stream.Hashed.{
  some_injective, suc_add, drop-add, if_read-Sound, Sound-next_bytes,
}

pub take-nil : {A : Type 0} (n : ℕ) → take {A = A} n [] ≡ []
take-nil zero = refl
take-nil (suc n) = refl

-- the first elements and those after them
pub take-add :
    {A : Type 0} (m n : ℕ) (xs : List A) → take (m + n) xs ≡ take m xs ++ take n (drop m xs)
take-add zero n xs = ap (λ m. take m xs) (omega arith)
take-add (suc m) n [] = take-nil (suc m + n) ∙ sym (take-nil n)
take-add (suc m) n (x ∷ xs) =
    ap (λ j. take j (x ∷ xs)) (suc_add m n) ∙ ap (λ ys. x ∷ ys) (take-add m n xs)

take-length : {A : Type 0} (k : ℕ) (xs : List A) → take (length (take k xs)) xs ≡ take k xs
take-length zero xs = refl
take-length (suc k) [] = refl
take-length (suc k) (x ∷ xs) = ap (λ ys. x ∷ ys) (take-length k xs)

add_zero : (p : ℕ) → p + 0 ≡ p
add_zero p = omega arith

add-length : (p : ℕ) (b c : Bytes) → p + length b + length c ≡ p + length (b ++ c)
add-length p b c = omega (arith, length-append b c)

pub advance-nil : (cursor : Cursor) → advance cursor [] ≡ cursor
unfolding advance update
advance-nil cursor =
    rw
      (
        add_zero cursor.position,
        add_zero cursor.bytes_processed,
        append-nil cursor.original_hasher.absorbed,
        append-nil cursor.slice_hasher.absorbed,
      )
      refl

pub advance-append :
    (cursor : Cursor) (b c : Bytes) → advance (advance cursor b) c ≡ advance cursor (b ++ c)
unfolding advance update
advance-append cursor b c =
    rw
      (
        add-length cursor.position b c,
        add-length cursor.bytes_processed b c,
        append_assoc cursor.original_hasher.absorbed b c,
        append_assoc cursor.slice_hasher.absorbed b c,
      )
      refl

-- the file after the bytes
abbrev pub grown : Node → Bytes → Node
grown node bytes = record node { content = node.content ++ bytes }

pub grown-nil : (node : Node) → grown node [] ≡ node
grown-nil node = ap (λ c. record node { content = c }) (append-nil node.content)

pub grown-append : (node : Node) (b c : Bytes) → grown (grown node b) c ≡ grown node (b ++ c)
grown-append node b c = ap (λ d. record node { content = d }) (append_assoc node.content b c)

-- one read, and what the later turns copy
copied_next :
    (k n position : ℕ) (content bytes : Bytes)
    → bytes ≡ take k (drop position content)
    → length bytes ≤ n
    → bytes ++ take (n - length bytes) (drop (position + length bytes) content)
      ≡ take n (drop position content)
copied_next k n position content bytes cut bound =
    ap₂ (λ b r. b ++ take (n - length bytes) r)
      (rw cut (sym (take-length k (drop position content))))
      (drop-add position (length bytes) content)
    ∙ sym (take-add (length bytes) (n - length bytes) (drop position content))
    ∙ ap (λ j. take j (drop position content)) (omega arith)

pub Sound-write_all :
    {B : Type 0} (held : Held) (Q : B → World → Type 0) (k : M B) (path : FilePath) (bytes : Bytes)
    (node : Node) (w : World)
    → Kept held w.files
    → Fresh path held
    → w.files path ≡ some node
    → ((w' : World)
        → Kept held w'.files
        → w'.files path ≡ some (grown node bytes)
        → Sound held Q (k w'))
    → Sound held Q ((write_all path bytes >> k) w)
Sound-write_all held Q k path bytes node w kept fresh there next =
    Sound-bind held _ Q (write_all path bytes w) _ (write_all-Sound held w kept path bytes fresh)
      λ _ w1 kept1 (before, found, wrote).
        let same = some_injective (sym found ∙ there) in
        next w1 kept1 (rw wrote (rw (path_eq_refl path, same) refl))

-- the loop's success
abbrev pub Copied : Job → Node → Node → ℕ → Cursor → Cursor → World → Type 0
Copied job src out remaining cursor after w =
    let copied = take remaining (drop cursor.position src.content) in
    (length copied ≡ remaining)
    × (after ≡ advance cursor copied)
    × (w.files job.target ≡ some (grown out copied))

read-le : (k n m : ℕ) (xs bytes : Bytes) → k ≤ min n m → bytes ≡ take k xs → length bytes ≤ n
read-le k n m xs bytes bound cut = rw cut (omega (arith, length-take k xs))

-- a read and the turns after it
Copied-step :
    (job : Job) (src out : Node) (bytes : Bytes) (cursor : Cursor) (k n : ℕ)
    → bytes ≡ take k (drop cursor.position src.content)
    → length bytes ≤ n
    → (after : Cursor) (w : World)
    → Copied job src (grown out bytes) (n - length bytes) (advance cursor bytes) after w
    → Copied job src out n cursor after w
unfolding advance
Copied-step job src out bytes cursor k n cut bound after w (len, moved, there) =
    let whole = copied_next k n cursor.position src.content bytes cut bound in
    (
      subst (λ c. length c ≡ n) whole
          (length-append bytes _ ∙ ap (λ m. length bytes + m) len ∙ omega arith),
      moved ∙ advance-append cursor bytes _ ∙ ap (advance cursor) whole,
      there ∙ ap some (grown-append out bytes _ ∙ ap (grown out) whole),
    )

module _ (held : Held) (job : Job) (src : Node)
    (reads : (files : Files) → Kept held files → files job.source ≡ some src)
    (fresh : Fresh job.target held) where
  -- The loop copies what it was asked for, or fails; it writes to its target alone.
  pub copy_loop-Sound :
      (fuel remaining : ℕ) (cursor : Cursor) (out : Node) (w : World)
      → Kept held w.files
      → w.files job.target ≡ some out
      → Sound held (Copied job src out remaining cursor) (copy_loop fuel job remaining cursor w)
  unfolding copy_loop
  copy_loop-Sound fuel zero cursor out w kept there =
      (kept, (refl, sym (advance-nil cursor), there ∙ ap some (sym (grown-nil out))))
  copy_loop-Sound zero (suc remaining) cursor out w kept there = kept
  copy_loop-Sound (suc fuel) (suc remaining) cursor out w kept there =
      Sound-next_bytes held job.source src (Copied job src out (suc remaining) cursor) _
        (min (suc remaining) default_buffer_size) cursor.position w (omega arith) kept
        (reads w.files kept)
        λ bytes w1 k kept1 same1 pos bound cut.
          if_read-Sound held _ bytes _ _ w1 (λ nothing. kept1)
            λ one.
              Sound-write_all held (Copied job src out (suc remaining) cursor) _ job.target bytes
                out w1 kept1 fresh (ap (λ files. files job.target) same1 ∙ there)
                λ w2 kept2 there2.
                  Sound-map held
                    (Copied job src (grown out bytes) (suc remaining - length bytes)
                      (advance cursor bytes))
                    (Copied job src out (suc remaining) cursor) _
                    (copy_loop-Sound fuel (suc remaining - length bytes) (advance cursor bytes)
                      (grown out bytes) _ kept2 there2)
                    (Copied-step job src out bytes cursor k (suc remaining) cut
                      (read-le k (suc remaining) default_buffer_size _ bytes bound cut))
