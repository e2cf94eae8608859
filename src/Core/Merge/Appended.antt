-- ===== src/Core/Merge/Appended.antt =====
-- The loop of a merge: what it appends to the output.
use mathlib.Core.List.{append-nil, append_assoc}
use cake_splitter.Prelude.{
  ◌≡◌, sym, ap, ◌∙◌, List, [], ◌∷◌, ◌++◌, arith, some, Text, length, not, is_empty,
}
use cake_splitter.Format.Manifest.{CakeManifest, SliceEntry}
use cake_splitter.Core.Error.{FilePath, corrupted_slices}
use cake_splitter.Core.Integrity.{Bytes, Sha256State, update}
use cake_splitter.Core.Path.{join}
use cake_splitter.Core.Host.{Node, Files, World, read_at}
use cake_splitter.Core.Host.Sound.{
  Held, Kept, Fresh, Sound, Sound-bind, Sound-map, Same, read_at-Sound,
}
use cake_splitter.Core.Host.Rules.{Sound-check_cancelled, Sound-open_file, Sound-reject}
use cake_splitter.Core.Stream.{Cursor, copy, advance}
use cake_splitter.Core.Stream.Copied.{Copied, copy_loop-Sound, grown, grown-nil, grown-append}
use cake_splitter.Core.Publish.Final.{same-at}
use cake_splitter.Core.Merge.{merge_job, append_slice, append_slices}
use cake_splitter.Core.Merge.Loaded.{take-le}
use cake_splitter.Core.Merge.Verified.{OnDisk}

abbrev pub contents : List Node → Bytes
contents [] = []
contents (node ∷ nodes) = node.content ++ contents nodes

-- the output and the hasher after some bytes
abbrev pub Appended : FilePath → Node → Bytes → Cursor → Cursor → World → Type 0
Appended partial out bytes cursor after w =
    (w.files partial ≡ some (grown out bytes))
    × (after.original_hasher ≡ update cursor.original_hasher bytes)

update-nil : (s : Sha256State) → s ≡ update s []
unfolding update
update-nil s = ap (λ b. record { absorbed = b }) (sym (append-nil s.absorbed))

update-append : (s : Sha256State) (b c : Bytes) → update (update s b) c ≡ update s (b ++ c)
unfolding update
update-append s b c = ap (λ d. record { absorbed = d }) (append_assoc s.absorbed b c)

module _ (held : Held) (manifest : CakeManifest) (directory partial : FilePath)
    (fresh : Fresh partial held) where
  append_slice-Sound :
      (slice : SliceEntry) (node out : Node) (cursor : Cursor) (w : World)
      → ((files : Files) → Kept held files → files (join directory slice.filename) ≡ some node)
      → length node.content ≡ slice.size
      → Kept held w.files
      → w.files partial ≡ some out
      → Sound held
          (Appended partial out node.content cursor)
          (append_slice manifest directory partial slice cursor w)
  unfolding append_slice merge_job copy advance
  append_slice-Sound slice node out cursor w reads size kept there =
      let path = join directory slice.filename in
      let R = Appended partial out node.content cursor in
      let job = merge_job manifest path slice partial in
      let begin = record cursor { position = 0 } in
      Sound-check_cancelled held R w kept _ λ w1 kept1 same1.
        Sound-open_file held R w1 kept1 path _ λ _ w2 kept2 same2 _.
          Sound-bind held (Copied job node out slice.size begin) R (copy job slice.size begin w2) _
            (copy_loop-Sound held job node reads fresh slice.size slice.size begin out w2 kept2
              (same-at partial (same2 ∙ same1) ∙ there))
            λ after w3 kept3 (len, moved, grew).
              Sound-bind held (λ _ w4. Same w3 w4) R (read_at path after.position 1 w3) _
                (Sound-map held _ (λ _ w4. Same w3 w4) (read_at path after.position 1 w3)
                  (read_at-Sound held w3 kept3 path after.position 1)
                  λ _ w4 (same4, _, _, _, _, _). same4)
                λ probe w4 kept4 same4.
                  Sound-reject held R w4 kept4 (not (is_empty probe))
                    (corrupted_slices (slice.filename ∷ [])) _
                    λ _.
                      let whole = take-le slice.size node.content (omega (arith, size)) in
                      (
                        kept4,
                        (
                          same-at partial same4 ∙ grew ∙ ap (λ c. some (grown out c)) whole,
                          ap (λ c. Cursor.original_hasher c) moved
                              ∙ ap (λ c. update cursor.original_hasher c) whole,
                        ),
                      )

  -- the slices' files are held
  abbrev pub Reads : (Bytes → Text) → List SliceEntry → List Node → Type 0
  Reads sha256 slices nodes =
      (files : Files) → Kept held files → OnDisk sha256 directory files slices nodes

  pub append_slices-Sound :
      (sha256 : Bytes → Text) (files : Files) (slices : List SliceEntry) (nodes : List Node)
      (out : Node) (cursor : Cursor) (w : World)
      → Kept held files
      → Reads sha256 slices nodes
      → Kept held w.files
      → w.files partial ≡ some out
      → Sound held
          (Appended partial out (contents nodes) cursor)
          (append_slices manifest directory partial slices cursor w)
  unfolding append_slices OnDisk
  append_slices-Sound sha256 files [] [] out cursor w some_kept reads kept there =
      (kept, (there ∙ ap some (sym (grown-nil out)), update-nil cursor.original_hasher))
  append_slices-Sound sha256 files [] (node ∷ nodes) out cursor w some_kept reads kept there =
      absurd (reads files some_kept)
  append_slices-Sound sha256 files (slice ∷ slices) [] out cursor w some_kept reads kept there =
      absurd (reads files some_kept)
  append_slices-Sound sha256 files (slice ∷ slices) (node ∷ nodes) out cursor w some_kept reads kept
        there =
      let R = Appended partial out (contents (node ∷ nodes)) cursor in
      Sound-bind held (Appended partial out node.content cursor) R
        (append_slice manifest directory partial slice cursor w) _
        (append_slice-Sound slice node out cursor w (λ f k. (reads f k).0) (reads files some_kept).1
          kept there)
        λ next w1 kept1 (grew, hashed).
          Sound-map held (Appended partial (grown out node.content) (contents nodes) next) R
            (append_slices manifest directory partial slices next w1)
            (append_slices-Sound sha256 files slices nodes (grown out node.content) next w1
              some_kept (λ f k. (reads f k).3) kept1 grew)
            λ after w2 (grew2, hashed2). (
              grew2 ∙ ap some (grown-append out node.content (contents nodes)),
              hashed2
                  ∙ ap (λ h. update h (contents nodes)) hashed
                  ∙ update-append cursor.original_hasher node.content (contents nodes),
            )
