-- ===== src/Runtime/Reorder/Swapped.antt =====
-- What a move in the queue changes.
use cake_splitter.Prelude.{
  ℕ, ◌≤◌, ◌≡◌, true, false, not, List, [], ◌∷◌, Option, none, some, Text, text_eq, length, count,
  get_elem?, All, ok, ok_or, map_err, >>=-eq-ok, reject_if-eq-ok, arith,
}
use cake_splitter.Format.Manifest.{External}
use cake_splitter.Runtime.Status.{queued, status_eq, TaskPriority}
use cake_splitter.Runtime.Record.{TaskRecord}
use cake_splitter.Runtime.Store.{
  StoreError, corrupt_state, not_found, invalid_reorder, Codec, Database, read_row, decode_row,
}
use cake_splitter.Runtime.Store.Capacity.{nonterminal}
use cake_splitter.Runtime.Reorder.{QueueDirection, position, other_index, peers_of, move_queued}
use cake_splitter.Runtime.Reorder.Ordered.{IsInOrder}
use cake_splitter.Runtime.Reorder.Once.{
  is_row, is_record, is_peer_row, count-same_key, count-peers_of, count-peers_of-le,
}
use cake_splitter.Runtime.Reorder.Stored.{IsStored}
use cake_splitter.Runtime.Reorder.Places.{
  peers_of-IsInOrder, IsPeer, get_elem?-All, peers_of-All, position-id, AreNeighbours,
  other_index-neighbours,
}
use cake_splitter.Runtime.Reorder.Written.{moved_to, Differs, write_swapped_lem}

ok_or-eq-ok : {A : Type 0} {a : A} (o : Option A) (e : StoreError) → ok_or o e ≡ ok a → o ≡ some a
ok_or-eq-ok none e h = cc
ok_or-eq-ok (some b) e h = cc

module _ {Json : Type 0} (x : External) (c : Codec Json) (now : Text) where
  -- what a move from a place to its neighbour leaves, as a row of another id shows
  abbrev pub Moved : Database → Text → QueueDirection → Text → List TaskRecord → Database → Type 0
  Moved db id direction other moved db' =
      (priority : TaskPriority) × (peers : List TaskRecord) × (i : ℕ) × (j : ℕ) × (a : TaskRecord)
      × (b : TaskRecord) × (peers_of x c now db priority ≡ ok peers)
      × (get_elem? peers i ≡ some a)
      × (get_elem? peers j ≡ some b)
      × AreNeighbours direction i j
      × (a.id ≡ id)
      × IsPeer db.tasks priority a
      × IsPeer db.tasks priority b
      × IsInOrder peers
      × ((key : Text) (epoch : ℕ)
          → count (is_record key epoch) peers
            ≡ count (is_peer_row x c now priority key epoch) db.tasks)
      × (moved ≡ moved_to x c now a b ∷ moved_to x c now b a ∷ [])
      × IsStored x c db'.tasks (moved_to x c now a b)
      × IsStored x c db'.tasks (moved_to x c now b a)
      × (read_row db'.tasks other ≡ read_row db.tasks other)
      × (nonterminal db' ≡ nonterminal db)

  moves :
      (db : Database) (id : Text) (direction : QueueDirection) (moved : List TaskRecord)
      (db' : Database)
      → move_queued x c now db id direction ≡ ok (moved, db')
      → (nonterminal db' ≡ nonterminal db)
        × ((other : Text)
            → All (Differs x c now other) moved
            → Moved db id direction other moved db')
  unfolding move_queued
  moves db id direction moved db' run =
      let (row, _, r1) = >>=-eq-ok (ok_or (read_row db.tasks id) not_found) _ run in
      let (target, _, r2) =
        >>=-eq-ok (map_err (λ reason. corrupt_state) (decode_row x c row)) _ r1 in
      let (_, r3) = reject_if-eq-ok (not (status_eq target.status queued)) _ _ r2 in
      let (peers, queue, r4) = >>=-eq-ok (peers_of x c now db target.priority) _ r3 in
      let (i, place, r5) = >>=-eq-ok (ok_or (position id peers) invalid_reorder) _ r4 in
      let (j, next, r6) =
        >>=-eq-ok (ok_or (other_index direction i (length peers)) invalid_reorder) _ r5 in
      let (a, at_i, r7) = >>=-eq-ok (ok_or (get_elem? peers i) invalid_reorder) _ r6 in
      let (b, at_j, r8) = >>=-eq-ok (ok_or (get_elem? peers j) invalid_reorder) _ r7 in
      let p = target.priority in
      let all = peers_of-All x c now db p peers queue in
      let here_a = ok_or-eq-ok (get_elem? peers i) invalid_reorder at_i in
      let here_b = ok_or-eq-ok (get_elem? peers j) invalid_reorder at_j in
      let peer_a = get_elem?-All (IsPeer db.tasks p) peers i a all here_a in
      let peer_b = get_elem?-All (IsPeer db.tasks p) peers j b all here_b in
      let neighbours =
        other_index-neighbours direction i (length peers) j (ok_or-eq-ok _ invalid_reorder next) in
      let twice : is_record a.id a.epoch b ≡ true → 2 ≤ count (is_row a.id a.epoch) db.tasks =
        (λ same. omega (
          arith,
          count-same_key peers direction i j a b here_a here_b neighbours same,
          count-peers_of-le x c now db p peers a.id a.epoch queue,
        )) in
      let (returned, stored_a, stored_b, unchanged, counted) =
        write_swapped_lem x c now db a b moved db' peer_a.0 peer_b.0 twice r8 in
      (
        counted,
        λ other apart. (
          p,
          peers,
          i,
          j,
          a,
          b,
          queue,
          here_a,
          here_b,
          neighbours,
          position-id id peers i a (ok_or-eq-ok (position id peers) invalid_reorder place) here_a,
          peer_a,
          peer_b,
          peers_of-IsInOrder x c now db p peers queue,
          λ key epoch. count-peers_of x c now db p peers key epoch queue,
          returned,
          stored_a,
          stored_b,
          unchanged other apart,
          counted,
        ),
      )

  pub move_queued-nonterminal :
      (db : Database) (id : Text) (direction : QueueDirection) (moved : List TaskRecord)
      (db' : Database)
      → move_queued x c now db id direction ≡ ok (moved, db')
      → nonterminal db' ≡ nonterminal db
  move_queued-nonterminal db id direction moved db' run = (moves db id direction moved db' run).0

  -- If a move succeeds, then the task of the id and its neighbour in that direction, in a list that
  -- ascends by place and then id and has each id and epoch as often as the table has queued rows of
  -- them with the task's priority, are returned in each other's place, each one revision later; for
  -- each of the two the table has one row of its id and epoch, and that holds what was returned; the
  -- row of every id that is not one of the two is read as before, and as many tasks are nonterminal.
  pub move_queued_lem :
      (db : Database) (id : Text) (direction : QueueDirection) (other : Text)
      (moved : List TaskRecord) (db' : Database)
      → move_queued x c now db id direction ≡ ok (moved, db')
      → All (λ r. text_eq r.id other ≡ false) moved
      → Moved db id direction other moved db'
  move_queued_lem db id direction other moved db' run apart =
      (moves db id direction moved db' run).1 other apart
