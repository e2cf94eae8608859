-- ===== src/Core/Integrity.antt =====
-- `Sha256State` of crates/cakesplitter-integrity/src/lib.rs. The `sha2` crate is a parameter: the
-- digest of a byte string, as lower-case hexadecimal.
use mathlib.Core.List.{append-nil, append_assoc}
use cake_splitter.Prelude.{ℕ, ◌≡◌, ap, ◌∙◌, sym, List, [], ◌∷◌, ◌++◌, Text}

abbrev pub Bytes : Type 0
Bytes = List ℕ

-- what the hasher has absorbed
pub record Sha256State : Type 0 where
  pub absorbed : Bytes

unfoldable pub new : Sha256State
new = record { absorbed = [] }

unfoldable pub update : Sha256State → Bytes → Sha256State
update s bytes = record { absorbed = s.absorbed ++ bytes }

unfoldable pub finish : (Bytes → Text) → Sha256State → Text
finish sha256 s = sha256 s.absorbed

-- `for chunk in chunks { hasher.update(chunk) }`
unfoldable pub update_all : Sha256State → List Bytes → Sha256State
update_all s [] = s
update_all s (chunk ∷ chunks) = update_all (update s chunk) chunks

unfoldable pub concat : List Bytes → Bytes
concat [] = []
concat (chunk ∷ chunks) = chunk ++ concat chunks

absorbed-update_all :
    (s : Sha256State) (chunks : List Bytes)
    → (update_all s chunks).absorbed ≡ s.absorbed ++ concat chunks
unfolding update_all update concat
absorbed-update_all s [] = sym (append-nil s.absorbed)
absorbed-update_all s (chunk ∷ chunks) =
    absorbed-update_all (update s chunk) chunks ∙ append_assoc s.absorbed chunk (concat chunks)

-- However the bytes are cut into chunks, the streamed digest is the digest of the whole.
pub finish-update_all :
    (sha256 : Bytes → Text) (chunks : List Bytes)
    → finish sha256 (update_all new chunks) ≡ sha256 (concat chunks)
unfolding finish new
finish-update_all sha256 chunks = ap sha256 (absorbed-update_all new chunks)
