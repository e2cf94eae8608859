-- ===== src/Core/Split/Published.antt =====
-- The manifest's file beside those of the slices, and what a split that succeeds leaves.
use cake_splitter.Prelude.{
  map_err-eq-ok, ◌+◌, ◌≡◌, refl, sym, ap, ◌∙◌, List, [], ◌∷◌, ◌++◌, some, codes, map, map_err,
  length, false, Result, ok, err, All,
}
use cake_splitter.Format.Manifest.{CakeManifest, SliceEntry}
use cake_splitter.Format.Validate.{validate}
use cake_splitter.Core.Error.{CoreError, FilePath, invalid_json}
use cake_splitter.Core.Integrity.{Bytes, new, update, finish}
use cake_splitter.Core.Path.{path_eq, path_eq_refl, parent, partial_path}
use cake_splitter.Core.System.{System, in_core}
use cake_splitter.Core.Host.{Node, Files, World, pure, new_node}
use cake_splitter.Core.Host.Sound.{
  Held, Kept, Fresh, Fresh-of_absent, Sound, Sound-map, Sound-ok, Same,
}
use cake_splitter.Core.Host.Rules.{Sound-lift, Sound-call, Sound-open_file, Sound-create_new}
use cake_splitter.Core.Stream.Hashed.{some_injective}
use cake_splitter.Core.Stream.Copied.{Sound-write_all}
use cake_splitter.Core.Publish.{StagedOutput, ensure_source_unchanged}
use cake_splitter.Core.Publish.Final.{same-at}
use cake_splitter.Core.Split.{stage_manifest, confirm, confirm_or_rollback}
use cake_splitter.Core.Split.Prepare.{Plan}
use cake_splitter.Core.Split.Untouched.{
  ensure_source_unchanged-Sound, FreshFinal, confirm_or_rollback-Sound,
}
use cake_splitter.Core.Split.Separate.{partials, finals, Separate, path_eq-sym}
use cake_splitter.Core.Split.Content.{Pieces, outputs_of}

-- nothing is held any more, but what was held is known
pub Sound-only :
    {A : Type 0} (held : Held) (Q : A → World → Type 0) (r : Result CoreError A × World)
    → Sound held Q r
    → Sound [] (λ a w. Q a w × Kept held w.files) r
Sound-only held Q (ok a, w) (kept, q) = (tt, (q, kept))
Sound-only held Q (err e, w) kept = tt

-- one more staged file, made after the others
module _ (m : StagedOutput) (n : Node) where
  Fresh-snoc :
      (p : FilePath) (held : Held) (os : List StagedOutput) (ns : List Node)
      → Separate held os ns
      → Fresh p (partials os ns ++ held)
      → path_eq p m.partial_path ≡ false
      → Fresh p (partials (os ++ m ∷ []) (ns ++ n ∷ []) ++ held)
  Fresh-snoc p held [] [] separate fresh apart = (apart, fresh)
  Fresh-snoc p held [] (k ∷ ns) separate fresh apart = absurd separate
  Fresh-snoc p held (o ∷ os) [] separate fresh apart = absurd separate
  Fresh-snoc p held (o ∷ os) (k ∷ ns) (_, separate) (other, fresh) apart =
      (other, Fresh-snoc p held os ns separate fresh apart)

  pub Separate-snoc :
      (held : Held) (os : List StagedOutput) (ns : List Node)
      → Separate held os ns
      → Fresh m.partial_path (partials os ns ++ held)
      → Separate held (os ++ m ∷ []) (ns ++ n ∷ [])
  Separate-snoc held [] [] separate fresh = (fresh, tt)
  Separate-snoc held [] (k ∷ ns) separate fresh = absurd separate
  Separate-snoc held (o ∷ os) [] separate fresh = absurd separate
  Separate-snoc held (o ∷ os) (k ∷ ns) (first, separate) (other, fresh) = (
    Fresh-snoc o.partial_path held os ns separate first
        (path_eq-sym m.partial_path o.partial_path other),
    Separate-snoc held os ns separate fresh,
  )

  pub Kept-snoc :
      (held : Held) (os : List StagedOutput) (ns : List Node) (files : Files)
      → Separate held os ns
      → Kept (partials os ns ++ held) files
      → files m.partial_path ≡ some n
      → Kept (partials (os ++ m ∷ []) (ns ++ n ∷ []) ++ held) files
  Kept-snoc held [] [] files separate kept here = (here, kept)
  Kept-snoc held [] (k ∷ ns) files separate kept here = absurd separate
  Kept-snoc held (o ∷ os) [] files separate kept here = absurd separate
  Kept-snoc held (o ∷ os) (k ∷ ns) files (_, separate) (first, kept) here =
      (first, Kept-snoc held os ns files separate kept here)

  pub finals-unsnoc :
      (held : Held) (os : List StagedOutput) (ns : List Node) (files : Files)
      → Separate held os ns
      → Kept (finals (os ++ m ∷ []) (ns ++ n ∷ [])) files
      → Kept (finals os ns) files × (files m.final_path ≡ some n)
  finals-unsnoc held [] [] files separate (here, _) = (tt, here)
  finals-unsnoc held [] (k ∷ ns) files separate kept = absurd separate
  finals-unsnoc held (o ∷ os) [] files separate kept = absurd separate
  finals-unsnoc held (o ∷ os) (k ∷ ns) files (_, separate) (first, kept) =
      let parts = finals-unsnoc held os ns files separate kept in ((first, parts.0), parts.1)

-- the manifest's file
abbrev pub ManifestStaged : System → Plan → CakeManifest → Held → StagedOutput → World → Type 0
ManifestStaged sys plan manifest held staged w =
    (node : Node) × (encoded : Bytes) × (w.files staged.partial_path ≡ some node)
    × Fresh staged.partial_path held
    × (staged.final_path ≡ plan.manifest_path)
    × (validate sys.external manifest ≡ ok tt)
    × (sys.manifest_to_json manifest ≡ ok encoded)
    × (node.content ≡ encoded ++ codes "\n")

pub stage_manifest-Content :
    (sys : System) (held : Held) (plan : Plan) (manifest : CakeManifest) (w : World)
    → Kept held w.files
    → Sound held (ManifestStaged sys plan manifest held) (stage_manifest sys plan manifest w)
unfolding stage_manifest
stage_manifest-Content sys held plan manifest w kept =
    let R = ManifestStaged sys plan manifest held in
    let partial = partial_path plan.manifest_path in
    Sound-lift held R w kept (in_core (validate sys.external manifest)) _ λ _ valid.
      Sound-lift held R w kept (map_err invalid_json (sys.manifest_to_json manifest)) _
        λ encoded written. Sound-create_new held R w kept partial _ λ w1 n kept1 free made.
          let fresh = Fresh-of_absent partial held w.files kept free in
          let there = same-at partial made ∙ rw (path_eq_refl partial) refl in
          Sound-write_all held R _ partial encoded (new_node n) w1 kept1 fresh there
            λ w2 kept2 there2.
              Sound-write_all held R _ partial (codes "\n") _ w2 kept2 fresh there2
                λ w3 kept3 there3. Sound-call held R w3 kept3 partial _ λ w4 kept4 same4.
                  Sound-call held R w4 kept4 partial _ λ w5 kept5 same5.
                    Sound-open_file held R w5 kept5 partial
                      (λ node. pure (record {
                        partial_path = partial;
                        final_path = plan.manifest_path;
                        identity = node.identity;
                        expected_size = length encoded + 1;
                        expected_sha256 =
                            finish sys.sha256 (update (update new encoded) (codes "\n"));
                      }))
                      λ node w6 kept6 same6 here. (
                        kept6,
                        (
                          node,
                          encoded,
                          same-at partial same6 ∙ here,
                          fresh,
                          refl,
                          map_err-eq-ok _ (validate sys.external manifest) tt valid,
                          map_err-eq-ok invalid_json (sys.manifest_to_json manifest) encoded
                              written,
                          ap (λ m. Node.content m)
                              (some_injective
                                (sym here ∙ same-at partial (same5 ∙ same4) ∙ there3)),
                        ),
                      )

all_fresh : (published : List StagedOutput) → All (FreshFinal []) published
all_fresh [] = tt
all_fresh (o ∷ os) = (tt, all_fresh os)

-- a confirmation that succeeds changes no file
pub confirm-Same :
    (plan : Plan) (published : List StagedOutput) (w : World)
    → Sound [] (λ _ w'. Same w w') (confirm plan published w)
unfolding confirm
confirm-Same plan published w =
    let r = ensure_source_unchanged plan.input plan.state w in
    Sound-map [] (λ _ w'. (r.0 ≡ ok tt) × (w' ≡ r.1)) (λ _ w'. Same w w')
      (confirm_or_rollback published r)
      (confirm_or_rollback-Sound [] published r tt (all_fresh published))
      λ _ w' (success, last).
        ap (λ v. World.files v) last
        ∙ Sound-ok [] (λ _ w'. Same w w') r tt
            (ensure_source_unchanged-Sound [] plan.input plan.state w tt) success

-- what a split of a source leaves
abbrev pub SplitInto : System → Node → FilePath → World → Type 0
SplitInto sys src path w =
    (manifest : CakeManifest) × (encoded : Bytes) × (file : Node) × (rs : List
      (StagedOutput × SliceEntry))
    × (nodes : List Node) × (validate sys.external manifest ≡ ok tt)
    × (manifest.original.size ≡ length src.content)
    × (manifest.original.sha256 ≡ sys.sha256 src.content)
    × (manifest.slices ≡ map (λ r. r.1) rs)
    × Pieces sys.sha256 (parent path) src rs nodes
    × Kept (finals (outputs_of rs) nodes) w.files
    × (sys.manifest_to_json manifest ≡ ok encoded)
    × (file.content ≡ encoded ++ codes "\n")
    × (w.files path ≡ some file)
