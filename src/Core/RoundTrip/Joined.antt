-- ===== src/Core/RoundTrip/Joined.antt =====
-- The pieces that a split cuts, one after the other.
use cake_splitter.Prelude.{
  ℕ, zero, suc, ◌+◌, ◌-◌, ◌*◌, min, ◌≡◌, refl, sym, ap, ap₂, ◌∙◌, List, [], ◌∷◌, ◌++◌, ok, Text,
  map, take, drop, length, length-drop, subst, arith,
}
use cake_splitter.Format.Manifest.{CakeManifest, SliceEntry, External}
use cake_splitter.Format.Validate.{validate}
use cake_splitter.Format.Validate.Valid.{Planned}
use cake_splitter.Format.Validate.Exact.{validate_iff, ends_at_size}
use cake_splitter.Core.Error.{FilePath}
use cake_splitter.Core.Integrity.{Bytes}
use cake_splitter.Core.Host.{Node, Files}
use cake_splitter.Core.Host.Sound.{Kept}
use cake_splitter.Core.Publish.{StagedOutput}
use cake_splitter.Core.Stream.Hashed.{some_injective}
use cake_splitter.Core.Stream.Copied.{take-nil, take-add}
use cake_splitter.Core.Split.Separate.{finals}
use cake_splitter.Core.Split.Content.{Pieces, outputs_of}
use cake_splitter.Core.Merge.Appended.{contents}
use cake_splitter.Core.Merge.Loaded.{take-le}
use cake_splitter.Core.Merge.Verified.{OnDisk}

drop-nil : {A : Type 0} (n : ℕ) → Path (List A) (drop n []) []
drop-nil zero = refl
drop-nil (suc n) = refl

drop-drop : {A : Type 0} (m n : ℕ) (xs : List A) → drop n (drop m xs) ≡ drop (m + n) xs
drop-drop zero n xs = ap (λ k. drop k xs) (omega arith)
drop-drop (suc m) n [] = drop-nil n ∙ sym (drop-nil (suc m + n))
drop-drop (suc m) n (x ∷ xs) =
    drop-drop m n xs ∙ ap (λ k. drop k (x ∷ xs)) {x = suc (m + n)} (omega arith)

take-min-length : {A : Type 0} (n : ℕ) (xs : List A) → take (min (length xs) n) xs ≡ take n xs
take-min-length zero xs = ap (λ k. take k xs) {y = 0} (omega arith)
take-min-length (suc n) [] = take-nil (min 0 (suc n))
take-min-length (suc n) (x ∷ xs) =
    ap (λ k. take k (x ∷ xs)) {y = suc (min (length xs) n)} (omega arith)
    ∙ ap (λ ys. x ∷ ys) (take-min-length n xs)

-- a planned piece starts at its position, and is of the target's length or the last
planned_piece :
    {A : Type 0} (start target : ℕ) (xs : List A)
    → take (min (length xs - start) target) (drop start xs) ≡ take target (drop start xs)
planned_piece start target xs =
    ap (λ k. take (min k target) (drop start xs)) (sym (length-drop start xs))
    ∙ take-min-length target (drop start xs)

module _ (x : External) (m : CakeManifest) (sha256 : Bytes → Text) (directory : FilePath)
    (src : Node) where
  -- the pieces from a position on are the source from there on, as far as they reach
  joined_from :
      (position : ℕ) (rs : List (StagedOutput × SliceEntry)) (nodes : List Node)
      → m.original.size ≡ length src.content
      → Planned x m position (map (λ r. r.1) rs)
      → Pieces sha256 directory src rs nodes
      → contents nodes
        ≡ take (length rs * m.target_slice_size) (drop (position * m.target_slice_size) src.content)
  joined_from position [] [] size planned pieces =
      ap (λ k. take k (drop (position * m.target_slice_size) src.content)) {x = 0}
        {y = 0 * m.target_slice_size} (omega arith)
  joined_from position [] (n ∷ nodes) size planned pieces = absurd pieces
  joined_from position (r ∷ rs) [] size planned pieces = absurd pieces
  joined_from position (r ∷ rs) (n ∷ nodes) size (p, planned) ((_, content, _), pieces) =
      let t = m.target_slice_size in
      let all = src.content in
      let first =
        content
        ∙ ap₂ (λ k o. take k (drop o all)) (p.size ∙ ap (λ k. min (k - position * t) t) size)
            p.offset
        ∙ planned_piece (position * t) t all in
      let later =
        joined_from (position + 1) rs nodes size planned pieces
        ∙ ap (λ o. take (length rs * t) (drop o all)) (omega arith)
        ∙ ap (λ ys. take (length rs * t) ys) (sym (drop-drop (position * t) t all)) in
      ap₂ (λ ys zs. ys ++ zs) first later
      ∙ sym (take-add t (length rs * t) (drop (position * t) all))
      ∙ ap (λ k. take k (drop (position * t) all)) (omega arith)

  -- the pieces of a valid manifest are the whole source
  pub contents-Pieces :
      (rs : List (StagedOutput × SliceEntry)) (nodes : List Node)
      → validate x m ≡ ok tt
      → m.original.size ≡ length src.content
      → m.slices ≡ map (λ r. r.1) rs
      → Pieces sha256 directory src rs nodes
      → contents nodes ≡ src.content
  contents-Pieces rs nodes valid size slices pieces =
      let v = (validate_iff x m).0 valid in
      let count = ap (λ ss. length ss) slices ∙ length-map rs in
      joined_from 0 rs nodes size (subst (λ ss. Planned x m 0 ss) slices v.planned) pieces
      ∙ ap (λ o. take (length rs * m.target_slice_size) (drop o src.content)) {y = 0} (omega arith)
      ∙ take-le (length rs * m.target_slice_size) src.content (
          omega (
            arith,
            ends_at_size x m v.header,
            size,
            ap (λ k. k * m.target_slice_size) (sym v.header.table ∙ count),
          ))
    where
      length-map : (rs : List (StagedOutput × SliceEntry)) → length (map (λ r. r.1) rs) ≡ length rs
      length-map [] = refl
      length-map (r ∷ rs) = ap suc (length-map rs)

module _ (sha256 : Bytes → Text) (directory : FilePath) (src : Node) where
  -- what stands at the entries' paths is what the split put there
  pub OnDisk-Pieces :
      (rs : List (StagedOutput × SliceEntry)) (nodes found : List Node) (files : Files)
      → Pieces sha256 directory src rs nodes
      → Kept (finals (outputs_of rs) nodes) files
      → OnDisk sha256 directory files (map (λ r. r.1) rs) found
      → found ≡ nodes
  unfolding OnDisk
  OnDisk-Pieces [] [] [] files pieces kept on_disk = refl
  OnDisk-Pieces [] [] (f ∷ found) files pieces kept on_disk = absurd on_disk
  OnDisk-Pieces [] (n ∷ nodes) found files pieces kept on_disk = absurd pieces
  OnDisk-Pieces (r ∷ rs) [] found files pieces kept on_disk = absurd pieces
  OnDisk-Pieces (r ∷ rs) (n ∷ nodes) [] files pieces kept on_disk = absurd on_disk
  OnDisk-Pieces (r ∷ rs) (n ∷ nodes) (f ∷ found) files (piece, pieces) (here, kept)
        (there, _, _, on_disk) =
      ap₂ (λ e es. e ∷ es) (some_injective (sym there ∙ ap files (sym piece.0) ∙ here))
        (OnDisk-Pieces rs nodes found files pieces kept on_disk)
