-- ===== src/Core/System.antt =====
-- What splitting and merging take from other crates and from the system, and the options of a split.
use cake_splitter.Prelude.{ℕ, Bool, List, Text, Result, map_err}
use cake_splitter.Format.Manifest.{External, CakeManifest, ManifestError}
use cake_splitter.Core.Enumeration.{Turn}
use cake_splitter.Core.Error.{CoreError, FilePath, invalid_manifest}
use cake_splitter.Core.Integrity.{Bytes}
use cake_splitter.Core.Host.{Files}

-- What the operations take from other crates and from the system.
pub record System : Type 0 where
  pub external : External
  -- the `sha2` crate, in lower-case hexadecimal
  pub sha256 : Bytes → Text
  -- `serde_json::to_vec_pretty`
  pub manifest_to_json : CakeManifest → Result Text Bytes
  -- `Uuid::new_v4()` and `Utc::now()` of this call, as texts
  pub new_uuid : Text
  pub now : Text
  -- whether a byte string is UTF-8
  pub is_utf8 : Bytes → Bool
  -- whether a directory can be listed, and its listing
  pub existing : FilePath → Files → Result CoreError (Unit {0})
  pub turns : FilePath → Files → List Turn

pub record SplitOptions : Type 0 where
  pub slice_size : ℕ  -- u64
  pub output_dir : FilePath

-- `ManifestError` through `?`
abbrev pub in_core : {A : Type 0} → Result ManifestError A → Result CoreError A
in_core r = map_err invalid_manifest r
