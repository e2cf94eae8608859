-- ===== src/Core/Merge/Verified.antt =====
-- What the loop of `inspect_package` has seen of the slices.
use cake_splitter.Prelude.{
  suc, ◌≡◌, refl, sym, ◌∙◌, Bool, true, false, List, [], ◌∷◌, ◌++◌, subst, some, Text, text_eq,
  text_eq→eq, ◌==◌, ==_iff, length,
}
use cake_splitter.Format.Manifest.{SliceEntry}
use cake_splitter.Core.Error.{FilePath}
use cake_splitter.Core.Integrity.{Bytes}
use cake_splitter.Core.Path.{join}
use cake_splitter.Core.Host.{Node, Files, World, open_file}
use cake_splitter.Core.Host.Sound.{Held, Kept, Sound, Sound-bind, Sound-map, Same}
use cake_splitter.Core.Host.Rules.{Sound-check_cancelled, Sound-open_file, Sound-Same}
use cake_splitter.Core.Stream.{hash_reader}
use cake_splitter.Core.Stream.Hashed.{hash_reader-Sound}
use cake_splitter.Core.Publish.{attempt}
use cake_splitter.Core.Publish.Final.{attempt-open_file-Sound, same-at}
use cake_splitter.Core.Merge.Inspect.{
  Tally, hash_file, check_hash, check_size, check_found, is_file, note_hash, inspect_slice,
  inspect_slices,
}

-- the files of the slices, each with the size and the digest of its entry
unfoldable pub OnDisk : (Bytes → Text) → FilePath → Files → List SliceEntry → List Node → Type 0
OnDisk sha256 directory files [] [] = Unit
OnDisk sha256 directory files (slice ∷ slices) (node ∷ nodes) =
    (files (join directory slice.filename) ≡ some node)
    × (length node.content ≡ slice.size)
    × (sha256 node.content ≡ slice.sha256)
    × OnDisk sha256 directory files slices nodes
OnDisk sha256 directory files [] (node ∷ nodes) = ⊥
OnDisk sha256 directory files (slice ∷ slices) [] = ⊥

abbrev pub no_tally : Tally
no_tally = record { found_slice_count = 0; missing = []; corrupted = [] }

-- nothing was noted
unfoldable pub IsClean : Tally → Type 0
IsClean tally = (tally.missing ≡ []) × (tally.corrupted ≡ [])

snoc-ne-nil : {A : Type 0} (xs : List A) (x : A) → (xs ++ x ∷ []) ≡ [] → ⊥
snoc-ne-nil [] x e = cc
snoc-ne-nil (y ∷ ys) x e = cc

-- the file of an entry
abbrev IsIntact : (Bytes → Text) → FilePath → SliceEntry → Files → Type 0
IsIntact sha256 path slice files =
    (node : Node) × (files path ≡ some node)
    × (length node.content ≡ slice.size)
    × (sha256 node.content ≡ slice.sha256)

-- if nothing is noted after the file, then nothing was before, and the file is intact
abbrev Noted : (Bytes → Text) → FilePath → SliceEntry → Tally → World → Tally → World → Type 0
Noted sha256 path slice tally w tally' w' =
    Same w w' × (IsClean tally' → IsClean tally × IsIntact sha256 path slice w.files)

Noted-earlier :
    (sha256 : Bytes → Text) (path : FilePath) (slice : SliceEntry) (tally : Tally) (w w1 : World)
    → Same w w1
    → (tally' : Tally) (w2 : World) → Noted sha256 path slice tally w1 tally' w2
    → Noted sha256 path slice tally w tally' w2
Noted-earlier sha256 path slice tally w w1 same1 tally' w2 (same2, noted) = (
  same2 ∙ same1,
  λ clean. subst (λ files. IsClean tally × IsIntact sha256 path slice files) same1 (noted clean),
)

module _ (sha256 : Bytes → Text) (held : Held) (path : FilePath) (slice : SliceEntry)
    (tally : Tally) where
  hash_file-Sound :
      (node : Node) (w : World)
      → Kept held w.files
      → w.files path ≡ some node
      → Sound held
          (λ digest w'. Same w w' × (digest ≡ sha256 node.content))
          (hash_file sha256 path w)
  unfolding hash_file
  hash_file-Sound node w kept here =
      Sound-open_file held (λ digest w'. Same w w' × (digest ≡ sha256 node.content)) w kept path _
        λ _ w1 kept1 same1 _.
          Sound-map held (λ digest w2. Same w1 w2 × (digest ≡ sha256 node.content))
            (λ digest w'. Same w w' × (digest ≡ sha256 node.content)) (hash_reader sha256 path w1)
            (hash_reader-Sound sha256 held path node w1 kept1 (same-at path same1 ∙ here))
            λ digest w2 (same2, whole). (same2 ∙ same1, whole)

  note_hash-IsClean :
      (node : Node) (digest : Text) (same : Bool)
      → (same ≡ true → digest ≡ slice.sha256)
      → IsClean (note_hash tally slice same)
      → IsClean tally × (digest ≡ slice.sha256)
  unfolding note_hash IsClean
  note_hash-IsClean node digest true agree clean = (clean, agree refl)
  note_hash-IsClean node digest false agree (_, clean) = absurd (snoc-ne-nil _ _ clean)

  check_size-Sound :
      (node : Node) (sized : Bool) (w : World)
      → Kept held w.files
      → w.files path ≡ some node
      → (sized ≡ true → length node.content ≡ slice.size)
      → Sound held
          (Noted sha256 path slice tally w)
          (check_size sha256 path slice tally true sized w)
  unfolding check_size check_hash IsClean
  check_size-Sound node false w kept here size =
      (kept, (refl, λ (_, clean). absurd (snoc-ne-nil _ _ clean)))
  check_size-Sound node true w kept here size =
      Sound-bind held (λ digest w'. Same w w' × (digest ≡ sha256 node.content))
        (Noted sha256 path slice tally w) (hash_file sha256 path w) _
        (hash_file-Sound node w kept here)
        λ digest w1 kept1 (same1, whole). (
          kept1,
          (
            same1,
            λ clean.
                let noted =
                  note_hash-IsClean node digest (text_eq digest slice.sha256) (text_eq→eq _ _)
                    clean in
                (noted.0, (node, here, size refl, sym whole ∙ noted.1)),
          ),
        )

module _ (sha256 : Bytes → Text) (held : Held) (path : FilePath) (slice : SliceEntry)
    (tally : Tally) where
  abbrev counted : Tally
  counted = record tally { found_slice_count = suc tally.found_slice_count }

  check_found-Sound :
      (found : Bool) (w : World)
      → Kept held w.files
      → Sound held
          (Noted sha256 path slice tally w)
          (check_found sha256 path slice tally true found w)
  unfolding check_found IsClean
  check_found-Sound false w kept = (kept, (refl, λ (clean, _). absurd (snoc-ne-nil _ _ clean)))
  check_found-Sound true w kept =
      Sound-open_file held (Noted sha256 path slice tally w) w kept path _
        λ node w1 kept1 same1 here.
          Sound-map held (Noted sha256 path slice counted w1) (Noted sha256 path slice tally w)
            (check_size sha256 path slice counted true (length node.content == slice.size) w1)
            (check_size-Sound sha256 held path slice counted node
              (length node.content == slice.size) w1 kept1 (same-at path same1 ∙ here)
              (==_iff (length node.content) slice.size).0)
            (Noted-earlier sha256 path slice tally w w1 same1)

module _ (sha256 : Bytes → Text) (held : Held) (directory : FilePath) where
  inspect_slice-Sound :
      (slice : SliceEntry) (tally : Tally) (w : World)
      → Kept held w.files
      → Sound held
          (Noted sha256 (join directory slice.filename) slice tally w)
          (inspect_slice sha256 directory true slice tally w)
  unfolding inspect_slice
  inspect_slice-Sound slice tally w kept =
      let path = join directory slice.filename in
      Sound-check_cancelled held (Noted sha256 path slice tally w) w kept _ λ w1 kept1 same1.
        Sound-Same held (Noted sha256 path slice tally w) w1 kept1 (attempt (open_file path)) _
          (attempt-open_file-Sound held path w1 kept1)
          λ node w2 kept2 same2.
            Sound-map held (Noted sha256 path slice tally w2) (Noted sha256 path slice tally w)
              (check_found sha256 path slice tally true (is_file node) w2)
              (check_found-Sound sha256 held path slice tally (is_file node) w2 kept2)
              (Noted-earlier sha256 path slice tally w w2 (same2 ∙ same1))

  -- nothing was noted, so all slices are on disk
  abbrev pub Inspected : List SliceEntry → Tally → World → Tally → World → Type 0
  Inspected slices tally w tally' w' =
      Same w w'
      × (IsClean tally'
          → IsClean tally × (nodes : List Node) × OnDisk sha256 directory w.files slices nodes)

  pub inspect_slices-Sound :
      (slices : List SliceEntry) (tally : Tally) (w : World)
      → Kept held w.files
      → Sound held (Inspected slices tally w) (inspect_slices sha256 directory true slices tally w)
  unfolding inspect_slices OnDisk
  inspect_slices-Sound [] tally w kept = (kept, (refl, λ clean. (clean, [], tt)))
  inspect_slices-Sound (slice ∷ slices) tally w kept =
      Sound-bind held (Noted sha256 (join directory slice.filename) slice tally w)
        (Inspected (slice ∷ slices) tally w) (inspect_slice sha256 directory true slice tally w) _
        (inspect_slice-Sound slice tally w kept)
        λ next w1 kept1 (same1, noted).
          Sound-map held (Inspected slices next w1) (Inspected (slice ∷ slices) tally w)
            (inspect_slices sha256 directory true slices next w1)
            (inspect_slices-Sound slices next w1 kept1)
            λ tally' w2 (same2, later). (
              same2 ∙ same1,
              λ clean.
                  let rest = later clean in
                  let (before, intact) = noted rest.0 in
                  (
                    before,
                    intact.0 ∷ rest.1,
                    (
                      intact.1,
                      intact.2,
                      intact.3,
                      subst (λ files. OnDisk sha256 directory files slices rest.1) same1 rest.2,
                    ),
                  ),
            )
