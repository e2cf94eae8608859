-- ===== src/Core/Merge/Loaded.antt =====
-- `load_manifest`: what a success has read.
use cake_splitter.Prelude.{
  map_err-eq-ok, ℕ, zero, suc, ◌≤◌, ◌≡◌, refl, sym, ap, ◌∙◌, false, not, List, [], ◌∷◌, arith, some,
  codes, ltb, ltb→le, length, take, ok,
}
use cake_splitter.Format.Manifest.{CakeManifest, manifest_too_large, max_manifest_bytes}
use cake_splitter.Format.Validate.{parse_manifest_json}
use cake_splitter.Core.Error.{FilePath, io, invalid_manifest}
use cake_splitter.Core.System.{System, in_core}
use cake_splitter.Core.Host.{Node, World, lift}
use cake_splitter.Core.Host.Sound.{Held, Kept, Sound, Same}
use cake_splitter.Core.Host.Rules.{Sound-call, Sound-open_file, Sound-reject, Sound-last_lift}
use cake_splitter.Core.Merge.Inspect.{load_manifest}

pub take-le : {A : Type 0} (n : ℕ) (xs : List A) → length xs ≤ n → take n xs ≡ xs
take-le zero [] bound = refl
take-le zero (x ∷ xs) bound = absurd (omega (arith, bound))
take-le (suc n) [] bound = refl
take-le (suc n) (x ∷ xs) bound = ap (λ ys. x ∷ ys) (take-le n xs (omega (arith, bound)))

small-le :
    (file : Node)
    → ltb max_manifest_bytes (length file.content) ≡ false
    → length file.content ≤ suc max_manifest_bytes
small-le file small = omega (arith, ltb→le _ _ small)

-- the manifest that a file holds
abbrev pub Loaded : System → FilePath → World → CakeManifest → World → Type 0
Loaded sys path w manifest w' =
    Same w w'
    × (file : Node) × (w.files path ≡ some file)
    × (parse_manifest_json sys.external file.content ≡ ok manifest)

module _ (sys : System) (held : Held) where
  pub load_manifest-Sound :
      (path : FilePath) (w : World)
      → Kept held w.files
      → Sound held (Loaded sys path w) (load_manifest sys path w)
  unfolding load_manifest
  load_manifest-Sound path w kept =
      Sound-open_file held (Loaded sys path w) w kept path _ λ file w1 kept1 same1 here.
        Sound-reject held (Loaded sys path w) w1 kept1 _ (invalid_manifest manifest_too_large) _
          λ small. Sound-call held (Loaded sys path w) w1 kept1 path _ λ w2 kept2 same2.
            Sound-reject held (Loaded sys path w) w2 kept2
              (not (sys.is_utf8 (take (suc max_manifest_bytes) file.content)))
              (io path (codes "stream did not contain valid UTF-8"))
              (lift (
                in_core
                  (parse_manifest_json sys.external (take (suc max_manifest_bytes) file.content))))
              λ text. Sound-last_lift held (Loaded sys path w) w2 _ kept2 λ manifest parsed. (
                same2 ∙ same1,
                file,
                here,
                ap (λ json. parse_manifest_json sys.external json)
                      (sym (take-le (suc max_manifest_bytes) file.content (small-le file small)))
                    ∙ map_err-eq-ok invalid_manifest _ manifest parsed,
              )
