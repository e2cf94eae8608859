-- ===== src/Core/Stream/Fuel.antt =====
-- The fuel of the streaming loops.
use cake_splitter.Prelude.{
  ℕ, zero, suc, ◌+◌, ◌-◌, ◌≤◌, ◌<◌, ◌≡◌, refl, sym, ◌∙◌, min, [], ◌∷◌, arith, some, Text, Result,
  ok, err, length, take, drop, length-take, length-drop,
}
use cake_splitter.Core.Error.{CoreError, FilePath}
use cake_splitter.Core.Integrity.{Bytes, Sha256State, new, update}
use cake_splitter.Core.Host.{
  Node, World, M, and_then, check_cancelled, default_buffer_size, read_at, write_all,
}
use cake_splitter.Core.Host.Sound.{Same, and_then-ext, check_cancelled-Sound, read_at-Sound}
use cake_splitter.Core.Stream.{if_read, Job, Cursor, advance, copy_loop, hash_loop, hash_reader}
use cake_splitter.Core.Stream.Hashed.{some_injective}
use cake_splitter.Core.Publish.Final.{same-at}

and_then-eq :
    {A B : Type 0} (r : Result CoreError A × World) (f g : A → M B)
    → ((a : A) (w : World) → f a w ≡ g a w)
    → and_then r f ≡ and_then r g
and_then-eq (ok a, w) f g agree = agree a w
and_then-eq (err e, w) f g agree = refl

if_read-eq :
    {A : Type 0} (bytes : Bytes) (nothing f g : M A) (w : World)
    → (1 ≤ length bytes → f w ≡ g w)
    → if_read bytes nothing f w ≡ if_read bytes nothing g w
if_read-eq [] nothing f g w agree = refl
if_read-eq (b ∷ bs) nothing f g w agree = agree (omega arith)

read-inside :
    (n node : Node) (k position : ℕ) (bytes : Bytes)
    → n ≡ node
    → bytes ≡ take (min default_buffer_size k) (drop position n.content)
    → position ≤ length node.content
    → position + length bytes ≤ length node.content
read-inside n node k position bytes same cut inside =
    rw (cut, same)
      (omega (
        arith,
        inside,
        length-take (min default_buffer_size k) (drop position node.content),
        length-drop position node.content,
      ))

-- The copy loop needs no more fuel than bytes to copy.
pub copy_loop-fuel :
    (fuel fuel' : ℕ) (job : Job) (remaining : ℕ) (cursor : Cursor) (w : World)
    → remaining ≤ fuel
    → remaining ≤ fuel'
    → copy_loop fuel job remaining cursor w ≡ copy_loop fuel' job remaining cursor w
unfolding copy_loop
copy_loop-fuel fuel fuel' job zero cursor w enough enough' = refl
copy_loop-fuel zero fuel' job (suc remaining) cursor w enough enough' =
    absurd (omega (arith, enough))
copy_loop-fuel (suc fuel) zero job (suc remaining) cursor w enough enough' =
    absurd (omega (arith, enough'))
copy_loop-fuel (suc fuel) (suc fuel') job (suc remaining) cursor w enough enough' =
    and_then-eq (check_cancelled w) _ _ λ _ w1.
      and_then-eq (read_at job.source cursor.position (min (suc remaining) default_buffer_size) w1)
        _ _
        λ bytes w2. if_read-eq bytes _ _ _ w2 λ one.
          and_then-eq (write_all job.target bytes w2) _ _ λ _ w3.
            copy_loop-fuel fuel fuel' job (suc remaining - length bytes) (advance cursor bytes) _
              (omega arith) (omega arith)

-- A file needs no more turns than it has bytes, and one that finds its end: from a position that the
-- fuel suffices for, more fuel gives the same.
hash_loop-fuel :
    (sha256 : Bytes → Text) (fuel fuel' : ℕ) (path : FilePath) (position : ℕ) (hasher : Sha256State)
    (node : Node) (w : World)
    → w.files path ≡ some node
    → length node.content < position + fuel
    → length node.content < position + fuel'
    → position ≤ length node.content
    → hash_loop sha256 fuel path position hasher w ≡ hash_loop sha256 fuel' path position hasher w
unfolding hash_loop
hash_loop-fuel sha256 zero fuel' path position hasher node w here enough enough' inside =
    absurd (omega (arith, enough, inside))
hash_loop-fuel sha256 (suc fuel) zero path position hasher node w here enough enough' inside =
    absurd (omega (arith, enough', inside))
hash_loop-fuel sha256 (suc fuel) (suc fuel') path position hasher node w here enough enough'
      inside =
    and_then-ext [] (λ _ w1. Same w w1) (check_cancelled w) _ _ (check_cancelled-Sound [] w tt)
      λ _ w1 kept1 same1.
        and_then-ext [] _ (read_at path position default_buffer_size w1) _ _
          (read_at-Sound [] w1 tt path position default_buffer_size)
          λ bytes w2 kept2 (same2, n, there, k, pos, cut). if_read-eq bytes _ _ _ w2 λ one.
            let there_first = same-at path (same2 ∙ same1) ∙ here in
            let bound =
              read-inside n node k position bytes
                (some_injective (sym there ∙ same-at path same1 ∙ here)) cut inside in
            hash_loop-fuel sha256 fuel fuel' path (position + length bytes) (update hasher bytes)
              node w2 there_first (omega (arith, one, enough)) (omega (arith, one, enough')) bound

-- However much fuel is given above a turn per byte and one, the digest is that of `hash_reader`.
pub hash_reader-fuel :
    (sha256 : Bytes → Text) (more : ℕ) (path : FilePath) (node : Node) (w : World)
    → w.files path ≡ some node
    → hash_loop sha256 (suc (length node.content) + more) path 0 new w ≡ hash_reader sha256 path w
unfolding hash_reader
hash_reader-fuel sha256 more path node w here = rw here (
    hash_loop-fuel sha256 (suc (length node.content) + more) (suc (length node.content)) path 0 new
      node w here (omega arith) (omega arith) (omega arith))
