-- ===== src/Core/Split/Content.antt =====
-- What the staged slices hold.
use cake_splitter.Prelude.{
  ℕ, suc, ◌+◌, ◌≡◌, refl, sym, ap, ◌∙◌, List, [], ◌∷◌, ◌++◌, Option, none, some, Text, map, ok,
  ok_or, take, drop, length, All,
}
use cake_splitter.Format.Manifest.{SliceEntry}
use cake_splitter.Core.Error.{CoreError, FilePath, non_utf8_filename}
use cake_splitter.Core.Integrity.{Bytes, new, update, finish}
use cake_splitter.Core.Path.{path_eq_refl, join, file_name, file_name-join}
use cake_splitter.Core.Host.{Node, Files, World, pure, new_node}
use cake_splitter.Core.Host.Sound.{
  Held, Kept, Fresh, Fresh-of_absent, Sound, Sound-bind, Sound-tail,
}
use cake_splitter.Core.Host.Rules.{
  Sound-lift, Sound-check_cancelled, Sound-call, Sound-open_file, Sound-create_new,
}
use cake_splitter.Core.Stream.{Cursor, advance, copy}
use cake_splitter.Core.Stream.Hashed.{some_injective}
use cake_splitter.Core.Stream.Copied.{Copied, copy_loop-Sound}
use cake_splitter.Core.Publish.{StagedOutput}
use cake_splitter.Core.Publish.Final.{same-at}
use cake_splitter.Core.Split.Prepare.{Plan}
use cake_splitter.Core.Split.Stage.{
  job_of, expected_size, staged_of, entry_of, stage_slice, stage_slices,
}
use cake_splitter.Core.Split.Sources.{IsInside}
use cake_splitter.Core.Split.Separate.{partials, Separate, Separate-cons, Kept-split, Kept-join}

-- a staged file holds the part of the source that its entry names
abbrev pub Piece : (Bytes → Text) → FilePath → Node → StagedOutput × SliceEntry → Node → Type 0
Piece sha256 directory src (o, e) node =
    (o.final_path ≡ join directory e.filename)
    × (node.content ≡ take e.size (drop e.offset src.content))
    × (e.sha256 ≡ sha256 node.content)

abbrev pub Pieces :
    (Bytes → Text) → FilePath → Node → List (StagedOutput × SliceEntry) → List Node → Type 0
Pieces sha256 directory src [] [] = Unit
Pieces sha256 directory src (r ∷ rs) (n ∷ ns) =
    Piece sha256 directory src r n × Pieces sha256 directory src rs ns
Pieces sha256 directory src [] (n ∷ ns) = ⊥
Pieces sha256 directory src (r ∷ rs) [] = ⊥

abbrev pub outputs_of : List (StagedOutput × SliceEntry) → List StagedOutput
outputs_of rs = map (λ r. r.0) rs

-- the position in the source is the number of bytes copied
abbrev pub InStep : Cursor → Type 0
InStep cursor = cursor.position ≡ cursor.bytes_processed

InStep-advance : (cursor : Cursor) (bytes : Bytes) → InStep cursor → InStep (advance cursor bytes)
unfolding advance
InStep-advance cursor bytes h = ap (λ p. p + length bytes) h

ok_or-eq-ok : {A : Type 0} (o : Option A) (e : CoreError) (a : A) → ok_or o e ≡ ok a → o ≡ some a
ok_or-eq-ok none e a h = cc
ok_or-eq-ok (some b) e a h = cc

named_inside :
    (directory path : FilePath) (name filename : Text)
    → path ≡ join directory name
    → file_name path ≡ some filename
    → path ≡ join directory filename
named_inside directory path name filename inside named =
    inside
    ∙ ap (join directory)
        (some_injective (sym (file_name-join directory name) ∙ sym (ap file_name inside) ∙ named))

module _ (sha256 : Bytes → Text) (plan : Plan) (directory : FilePath) (src : Node) where
  abbrev StagedPiece :
      Held → FilePath × FilePath → (StagedOutput × SliceEntry) × Cursor → World → Type 0
  StagedPiece held paths result w =
      (node : Node) × (w.files result.0.0.partial_path ≡ some node)
      × Fresh result.0.0.partial_path held
      × Piece sha256 directory src result.0 node
      × InStep result.1

  digest_of :
      (cursor after : Cursor) (copied : Bytes)
      → after ≡ advance (record cursor { slice_hasher = new }) copied
      → finish sha256 after.slice_hasher ≡ sha256 copied
  unfolding advance finish update new
  digest_of cursor after copied moved = ap (λ c. finish sha256 (Cursor.slice_hasher c)) moved

  stage_slice-Content :
      (held : Held) (reads : (files : Files) → Kept held files → files plan.input ≡ some src)
      (index : ℕ) (paths : FilePath × FilePath) (cursor : Cursor) (w : World)
      → IsInside directory paths
      → InStep cursor
      → Kept held w.files
      → Sound held (StagedPiece held paths) (stage_slice sha256 plan index paths cursor w)
  unfolding stage_slice job_of copy staged_of entry_of
  stage_slice-Content held reads index paths cursor w (name, inside) in_step kept =
      let R = StagedPiece held paths in
      let job = job_of plan index paths.0 in
      let size = expected_size plan cursor in
      let begin = record cursor { slice_hasher = new } in
      let copied = take size (drop cursor.position src.content) in
      Sound-check_cancelled held R w kept _ λ w1 kept1 same1.
        Sound-create_new held R w1 kept1 paths.0 _ λ w2 n kept2 free made.
          let fresh = Fresh-of_absent paths.0 held w1.files kept1 free in
          Sound-bind held (Copied job src (new_node n) size begin) R (copy job size begin w2) _
            (copy_loop-Sound held job src reads fresh size size begin (new_node n) w2 kept2
              (same-at paths.0 made ∙ rw (path_eq_refl paths.0) refl))
            λ after w3 kept3 (_, moved, grew).
              Sound-call held R w3 kept3 paths.0 _ λ w4 kept4 same4.
                Sound-call held R w4 kept4 paths.0 _ λ w5 kept5 same5.
                  Sound-open_file held R w5 kept5 paths.0 _ λ node w6 kept6 same6 here.
                    Sound-lift held R w6 kept6 (ok_or (file_name paths.1) non_utf8_filename)
                      (λ filename. pure (
                        (
                          staged_of sha256 plan paths cursor after node,
                          entry_of sha256 plan index filename cursor after,
                        ),
                        after,
                      ))
                      λ filename named.
                        let content =
                          ap (λ m. Node.content m)
                            (some_injective (sym here ∙ same-at paths.0 (same5 ∙ same4) ∙ grew)) in
                        (
                          kept6,
                          (
                            node,
                            same-at paths.0 same6 ∙ here,
                            fresh,
                            (
                              named_inside directory paths.1 name filename inside (
                                  ok_or-eq-ok (file_name paths.1) non_utf8_filename filename named),
                              content ∙ ap (λ p. take size (drop p src.content)) in_step,
                              digest_of cursor after copied moved ∙ ap sha256 (sym content),
                            ),
                            ap (λ c. Cursor.position c) moved
                                ∙ InStep-advance begin copied in_step
                                ∙ sym (ap (λ c. Cursor.bytes_processed c) moved),
                          ),
                        )

  -- all slices, each in its own file
  abbrev pub StagedPieces : Held → List (StagedOutput × SliceEntry) × Cursor → World → Type 0
  StagedPieces held result w =
      (nodes : List Node) × Pieces sha256 directory src result.0 nodes
      × Kept (partials (outputs_of result.0) nodes ++ held) w.files
      × Separate held (outputs_of result.0) nodes

  pub stage_slices-Content :
      (held : Held) (reads : (files : Files) → Kept held files → files plan.input ≡ some src)
      (index : ℕ) (paths : List (FilePath × FilePath)) (cursor : Cursor) (w : World)
      → All (IsInside directory) paths
      → InStep cursor
      → Kept held w.files
      → Sound held (StagedPieces held) (stage_slices sha256 plan index paths cursor w)
  unfolding stage_slices
  stage_slices-Content held reads index [] cursor w inside in_step kept = (kept, ([], tt, kept, tt))
  stage_slices-Content held reads index (first ∷ rest) cursor w (inside, insides) in_step kept =
      let R = StagedPieces held in
      Sound-bind held (StagedPiece held first) R (stage_slice sha256 plan index first cursor w) _
        (stage_slice-Content held reads index first cursor w inside in_step kept)
        λ staged w1 kept1 (node, here, fresh, piece, in_step1).
          let o = staged.0.0 in
          let held1 = (o.partial_path, node) ∷ held in
          Sound-tail o.partial_path node held R _ (
            Sound-bind held1 (StagedPieces held1) R
              (stage_slices sha256 plan (suc index) rest staged.1 w1)
              (λ later. pure (staged.0 ∷ later.0, later.1))
              (stage_slices-Content held1 (λ files k. reads files k.1) (suc index) rest staged.1 w1
                insides in_step1 (here, kept1))
              λ later w2 kept2 (nodes, pieces, all, separate).
                let parts = Kept-split (partials (outputs_of later.0) nodes) held1 w2.files all in
                (
                  kept2,
                  (
                    node ∷ nodes,
                    (piece, pieces),
                    (
                      parts.1.0,
                      Kept-join (partials (outputs_of later.0) nodes) held w2.files parts.0
                          parts.1.1,
                    ),
                    Separate-cons o node held (outputs_of later.0) nodes fresh separate,
                  ),
                ))
