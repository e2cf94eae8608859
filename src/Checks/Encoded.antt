-- ===== src/Checks/Encoded.antt =====
-- A writer and a reader of manifests that go together, for the package of a split and a merge: each
-- text stands after its length, and the entries after their number.
use cake_splitter.Prelude.{
  ℕ, zero, suc, ◌≡◌, refl, sym, ap, ap₂, ◌∙◌, List, [], ◌∷◌, ◌++◌, Text, codes, length, take, drop,
  Result, ok, ok_injective, err,
}
use mathlib.Core.List.{append_assoc}
use cake_splitter.Format.Manifest.{CakeManifest, SliceEntry}
use cake_splitter.Core.Integrity.{Bytes}
use cake_splitter.Core.System.{System}
use cake_splitter.Core.RoundTrip.{IsReadBack}
use cake_splitter.Checks.Samples.{ascii_external}
use cake_splitter.Checks.Files.{sys}

abbrev Read : Type 0
Read = Result Text CakeManifest

unfoldable pub put_text : Text → Bytes → Bytes
put_text text rest = length text ∷ (text ++ rest)

unfoldable pub put_slices : List SliceEntry → Bytes → Bytes
put_slices [] rest = rest
put_slices (s ∷ slices) rest =
    s.index ∷ put_text s.filename (s.offset ∷ s.size ∷ put_text s.sha256 (put_slices slices rest))

unfoldable pub put : CakeManifest → Bytes
put m = put_text m.format (
    put_text m.version (
      put_text m.package_id (
        put_text m.created_at (
          put_text m.original.filename (
            m.original.size
            ∷ put_text m.original.sha256 (
                m.target_slice_size ∷ m.slice_count ∷ length m.slices ∷ put_slices m.slices []))))))

unfoldable pub get_text : Bytes → (Text → Bytes → Read) → Read
get_text [] next = err (codes "EOF")
get_text (n ∷ rest) next = next (take n rest) (drop n rest)

unfoldable pub get_number : Bytes → (ℕ → Bytes → Read) → Read
get_number [] next = err (codes "EOF")
get_number (n ∷ rest) next = next n rest

unfoldable pub get_slices : ℕ → Bytes → (List SliceEntry → Read) → Read
get_slices zero rest next = next []
get_slices (suc n) rest next = get_number rest λ index r1. get_text r1 λ filename r2.
    get_number r2 λ offset r3. get_number r3 λ size r4. get_text r4 λ sha256 r5.
      get_slices n r5 λ slices. next (
        record { index = index; filename = filename; offset = offset; size = size; sha256 = sha256 }
        ∷ slices)

unfoldable pub get : Bytes → Read
get bytes = get_text bytes λ format r1. get_text r1 λ version r2. get_text r2 λ package_id r3.
    get_text r3 λ created_at r4. get_text r4 λ filename r5. get_number r5 λ size r6.
      get_text r6 λ sha256 r7. get_number r7 λ target r8. get_number r8 λ count r9.
        get_number r9 λ n r10. get_slices n r10 λ slices. ok (record {
          format = format;
          version = version;
          package_id = package_id;
          created_at = created_at;
          original = record { filename = filename; size = size; sha256 = sha256 };
          target_slice_size = target;
          slice_count = count;
          slices = slices;
        })

take-front : (xs ys : Bytes) → take (length xs) (xs ++ ys) ≡ xs
take-front [] ys = refl
take-front (x ∷ xs) ys = ap (λ zs. x ∷ zs) (take-front xs ys)

drop-front : (xs ys : Bytes) → drop (length xs) (xs ++ ys) ≡ ys
drop-front [] ys = refl
drop-front (x ∷ xs) ys = drop-front xs ys

get_text-put_text :
    (text : Text) (rest : Bytes) (next : Text → Bytes → Read)
    → get_text (put_text text rest) next ≡ next text rest
unfolding get_text put_text
get_text-put_text text rest next = ap₂ next (take-front text rest) (drop-front text rest)

get_slices-put_slices :
    (slices : List SliceEntry) (rest : Bytes) (next : List SliceEntry → Read)
    → get_slices (length slices) (put_slices slices rest) next ≡ next slices
unfolding get_slices put_slices get_number
get_slices-put_slices [] rest next = refl
get_slices-put_slices (s ∷ slices) rest next =
    simp (get_text-put_text, get_slices-put_slices slices) refl

put_text-append :
    (text : Text) (rest more : Bytes) → put_text text rest ++ more ≡ put_text text (rest ++ more)
unfolding put_text
put_text-append text rest more = ap (λ ys. length text ∷ ys) (append_assoc text rest more)

put_slices-append :
    (slices : List SliceEntry) (rest more : Bytes)
    → put_slices slices rest ++ more ≡ put_slices slices (rest ++ more)
unfolding put_slices
put_slices-append [] rest more = refl
put_slices-append (s ∷ slices) rest more = simp (put_text-append, put_slices-append slices) refl

get-put : (m : CakeManifest) (rest : Bytes) → get (put m ++ rest) ≡ ok m
unfolding get put get_number
get-put m rest =
    simp (put_text-append, put_slices-append, get_text-put_text, get_slices-put_slices) refl

abbrev pub encoding : System
encoding = record sys {
  external = record ascii_external { manifest_from_json = get };
  manifest_to_json = λ m. ok (put m);
}

pub encoding-IsReadBack : IsReadBack encoding
encoding-IsReadBack m encoded e =
    ap (λ b. get (b ++ codes "\n")) (sym (ok_injective e)) ∙ get-put m (codes "\n")
