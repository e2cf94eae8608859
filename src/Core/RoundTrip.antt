-- ===== src/Core/RoundTrip.antt =====
-- `split_file_with_progress` and then `merge_package_with_progress`, on the package that it wrote.
pub mod Joined
use cake_splitter.Prelude.{
  ◌≡◌, refl, sym, ap, ◌∙◌, List, [], ◌∷◌, ◌++◌, some, codes, ok, ok_injective, map, subst, length,
}
use cake_splitter.Format.Manifest.{CakeManifest, SliceEntry}
use cake_splitter.Format.Validate.{parse_manifest_json, validate}
use cake_splitter.Format.Validate.Parse.{IsParsed, parse_manifest_json_iff}
use cake_splitter.Core.Error.{FilePath}
use cake_splitter.Core.Integrity.{Bytes}
use cake_splitter.Core.Path.{parent}
use cake_splitter.Core.System.{System, SplitOptions}
use cake_splitter.Core.Host.{Node, Files, World}
use cake_splitter.Core.Host.Sound.{Held, Kept}
use cake_splitter.Core.Publish.{StagedOutput}
use cake_splitter.Core.Stream.Hashed.{some_injective}
use cake_splitter.Core.Split.{split_file_with_progress}
use cake_splitter.Core.Split.Separate.{finals}
use cake_splitter.Core.Split.Content.{Pieces, outputs_of}
use cake_splitter.Core.Split.Published.{SplitInto}
use cake_splitter.Core.Split.Outcome.{split_file_lem}
use cake_splitter.Core.Merge.{merge_package_with_progress}
use cake_splitter.Core.Merge.Appended.{contents}
use cake_splitter.Core.Merge.Verified.{OnDisk}
use cake_splitter.Core.Merge.Whole.{MergedFrom, merge_package_lem}
use cake_splitter.Core.RoundTrip.Joined.{contents-Pieces, OnDisk-Pieces}

-- every file of the first is a file of the second
abbrev pub Keeps : Files → Files → Type 0
Keeps files later =
    (path : FilePath) (node : Node) → files path ≡ some node → later path ≡ some node

-- what the manifest's writer puts out, with the newline after it, its reader takes back
abbrev pub IsReadBack : System → Type 0
IsReadBack sys =
    (manifest : CakeManifest) (encoded : Bytes)
    → sys.manifest_to_json manifest ≡ ok encoded
    → sys.external.manifest_from_json (encoded ++ codes "\n") ≡ ok manifest

Kept-later :
    (held : Held) (files later : Files) → Keeps files later → Kept held files → Kept held later
Kept-later [] files later keeps kept = tt
Kept-later ((path, node) ∷ held) files later keeps (here, kept) =
    (keeps path node here, Kept-later held files later keeps kept)

-- the bytes of the source are in the output
abbrev pub Restored : World → FilePath → World → FilePath → Type 0
Restored before input after output =
    (src : Node) × (copy : Node) × (before.files input ≡ some src)
    × (after.files output ≡ some copy)
    × (copy.content ≡ src.content)

restored :
    (sys : System) (src : Node) (path output : FilePath) (w later after : World)
    → IsReadBack sys
    → SplitInto sys src path w
    → Keeps w.files later.files
    → MergedFrom sys path output later tt after
    → (copy : Node) × (after.files output ≡ some copy) × (copy.content ≡ src.content)
restored sys src path output w later after reads
      (
        manifest, encoded, file, rs, nodes, valid, size, _, slices, pieces, kept, written, text,
        there,
      )
      keeps (read, found, disk_nodes, here, parsed, on_disk, (copy, at_output, joined, _, _)) =
    let same_file = some_injective (sym here ∙ keeps path file there) in
    let decoded = ((parse_manifest_json_iff sys.external found.content read).0 parsed).decoded in
    let same = ok_injective (
      sym decoded
      ∙ ap (λ n. sys.external.manifest_from_json (Node.content n)) same_file
      ∙ ap sys.external.manifest_from_json text
      ∙ reads manifest encoded written) in
    let on_disk_here =
      subst (λ ss. OnDisk sys.sha256 (parent path) later.files ss disk_nodes)
        (ap (λ m. CakeManifest.slices m) same ∙ slices) on_disk in
    let same_nodes =
      OnDisk-Pieces sys.sha256 (parent path) src rs nodes disk_nodes later.files pieces
        (Kept-later (finals (outputs_of rs) nodes) w.files later.files keeps kept) on_disk_here in
    (
      copy,
      at_output,
      joined
          ∙ ap contents same_nodes
          ∙ contents-Pieces sys.external manifest sys.sha256 (parent path) src rs nodes valid size
              slices pieces,
    )

-- If a split succeeds, and a merge of the package that it wrote succeeds later, when every file that
-- the split left is still there, then the output holds the bytes of the source, provided that
-- `serde_json` reads back the manifests that it writes.
pub split_file-merge_package :
    (sys : System) (input path output : FilePath) (options : SplitOptions) (w later : World)
    → IsReadBack sys
    → (split_file_with_progress sys input options w).0 ≡ ok path
    → Keeps (split_file_with_progress sys input options w).1.files later.files
    → (merge_package_with_progress sys path output later).0 ≡ ok tt
    → Restored w input (merge_package_with_progress sys path output later).1 output
split_file-merge_package sys input path output options w later reads split keeps merged =
    let (src, here, into) = split_file_lem sys input options w path split in
    let (copy, there, same) =
      restored sys src path output (split_file_with_progress sys input options w).1 later
        (merge_package_with_progress sys path output later).1 reads into keeps
        (merge_package_lem sys path output later merged) in
    (src, copy, here, there, same)
