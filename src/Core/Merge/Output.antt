-- ===== src/Core/Merge/Output.antt =====
-- `merge_package_with_progress`, from the creation of the output on.
use cake_splitter.Prelude.{
  ◌≡◌, refl, sym, ap, ◌∙◌, not, List, [], ◌∷◌, ◌++◌, some, Text, text_eq, length,
}
use cake_splitter.Format.Manifest.{CakeManifest, SliceEntry}
use cake_splitter.Core.Error.{FilePath, final_hash_mismatch}
use cake_splitter.Core.Integrity.{Bytes, finish}
use cake_splitter.Core.Path.{path_eq_refl, join, parent, partial_path}
use cake_splitter.Core.System.{System}
use cake_splitter.Core.Host.{Node, Files, World, ◌>>=◌, open_file, new_node}
use cake_splitter.Core.Host.Sound.{
  Held, Kept, Fresh-of_absent, Sound, Sound-bind, Sound-map, Sound-drop,
}
use cake_splitter.Core.Host.Rules.{Sound-call, Sound-open_file, Sound-reject, Sound-create_new}
use cake_splitter.Core.Stream.Hashed.{some_injective}
use cake_splitter.Core.Publish.{finalize_staged_output}
use cake_splitter.Core.Publish.Final.{same-at, Published, finalize_staged_output-Sound}
use cake_splitter.Core.Merge.{append_slices, no_bytes, staged_output, write_output}
use cake_splitter.Core.Merge.Verified.{OnDisk}
use cake_splitter.Core.Merge.Appended.{contents, Appended, append_slices-Sound}

-- the slices' files, as files to be kept
held_of : FilePath → List SliceEntry → List Node → Held
held_of directory [] nodes = []
held_of directory (slice ∷ slices) [] = []
held_of directory (slice ∷ slices) (node ∷ nodes) =
    (join directory slice.filename, node) ∷ held_of directory slices nodes

Kept-held_of :
    (sha256 : Bytes → Text) (directory : FilePath) (files : Files) (held : Held)
    (slices : List SliceEntry) (nodes : List Node)
    → OnDisk sha256 directory files slices nodes
    → Kept held files
    → Kept (held_of directory slices nodes ++ held) files
unfolding held_of OnDisk
Kept-held_of sha256 directory files held [] nodes on_disk kept = kept
Kept-held_of sha256 directory files held (slice ∷ slices) [] on_disk kept = kept
Kept-held_of sha256 directory files held (slice ∷ slices) (node ∷ nodes) (here, _, _, rest) kept =
    (here, Kept-held_of sha256 directory files held slices nodes rest kept)

OnDisk-held_of :
    (sha256 : Bytes → Text) (directory : FilePath) (files later : Files) (held : Held)
    (slices : List SliceEntry) (nodes : List Node)
    → OnDisk sha256 directory files slices nodes
    → Kept (held_of directory slices nodes ++ held) later
    → OnDisk sha256 directory later slices nodes
unfolding held_of OnDisk
OnDisk-held_of sha256 directory files later held [] [] on_disk kept = tt
OnDisk-held_of sha256 directory files later held [] (node ∷ nodes) on_disk kept = absurd on_disk
OnDisk-held_of sha256 directory files later held (slice ∷ slices) [] on_disk kept = absurd on_disk
OnDisk-held_of sha256 directory files later held (slice ∷ slices) (node ∷ nodes)
      (_, size, hash, rest) (here, kept) =
    (here, size, hash, OnDisk-held_of sha256 directory files later held slices nodes rest kept)

-- the merged file
abbrev pub Merged : System → FilePath → CakeManifest → List Node → Unit {0} → World → Type 0
Merged sys output_path manifest nodes _ w' =
    (out : Node) × (w'.files output_path ≡ some out)
    × (out.content ≡ contents nodes)
    × (length out.content ≡ manifest.original.size)
    × (sys.sha256 out.content ≡ manifest.original.sha256)

module _ (sys : System) (held : Held) (manifest_path output_path : FilePath)
    (manifest : CakeManifest) (nodes : List Node) where
  abbrev all : Held
  all = held_of (parent manifest_path) manifest.slices nodes ++ held

  abbrev Done : Unit {0} → World → Type 0
  Done = Merged sys output_path manifest nodes

  write_all_slices-Sound :
      (w : World)
      → OnDisk sys.sha256 (parent manifest_path) w.files manifest.slices nodes
      → Kept all w.files
      → Sound all Done (write_output sys manifest_path output_path manifest w)
  unfolding write_output
  write_all_slices-Sound w on_disk kept =
      let partial = partial_path output_path in
      let directory = parent manifest_path in
      Sound-create_new all Done w kept partial _ λ w1 n kept1 free made.
        let fresh = Fresh-of_absent partial all w.files kept free in
        let there = same-at partial made ∙ rw (path_eq_refl partial) refl in
        Sound-bind all (Appended partial (new_node n) (contents nodes) no_bytes) Done
          (append_slices manifest directory partial manifest.slices no_bytes w1) _
          (append_slices-Sound all manifest directory partial fresh sys.sha256 w.files
            manifest.slices nodes (new_node n) no_bytes w1 kept
            (λ later k.
              OnDisk-held_of sys.sha256 directory w.files later held manifest.slices nodes on_disk
                k)
            kept1 there)
          λ after w2 kept2 (grew, hashed). Sound-call all Done w2 kept2 partial _ λ w3 kept3 same3.
            Sound-call all Done w3 kept3 partial _ λ w4 kept4 same4.
              Sound-reject all Done w4 kept4
                (not (text_eq (finish sys.sha256 after.original_hasher) manifest.original.sha256))
                (final_hash_mismatch manifest.original.sha256
                  (finish sys.sha256 after.original_hasher))
                (open_file partial >>= λ node.
                  finalize_staged_output sys.sha256 (staged_output manifest output_path node))
                λ _. Sound-open_file all Done w4 kept4 partial _ λ node w5 kept5 same5 here.
                  Sound-map all
                    (Published sys.sha256 all (staged_output manifest output_path node) w5) Done
                    (finalize_staged_output sys.sha256 (staged_output manifest output_path node) w5)
                    (finalize_staged_output-Sound sys.sha256 all
                      (staged_output manifest output_path node) w5 kept5 fresh)
                    λ _ w6 (out, found, _, (_, size, digest), wrote).
                      let same =
                        some_injective
                          (sym found ∙ same-at partial (same5 ∙ same4 ∙ same3) ∙ grew) in
                      (
                        out,
                        same-at output_path wrote ∙ rw (path_eq_refl output_path) refl,
                        ap (λ m. Node.content m) same,
                        size,
                        digest,
                      )

  -- the same with the slices' files no longer held
  pub write_output-Sound :
      (w : World)
      → OnDisk sys.sha256 (parent manifest_path) w.files manifest.slices nodes
      → Kept held w.files
      → Sound held Done (write_output sys manifest_path output_path manifest w)
  write_output-Sound w on_disk kept =
      Sound-drop (held_of (parent manifest_path) manifest.slices nodes) held Done
        (write_output sys manifest_path output_path manifest w)
        (write_all_slices-Sound w on_disk (
          Kept-held_of sys.sha256 (parent manifest_path) w.files held manifest.slices nodes on_disk
            kept))
