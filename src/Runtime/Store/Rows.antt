-- ===== src/Runtime/Store/Rows.antt =====
-- Counting rows under DELETE and UPDATE.
use cake_splitter.Prelude.{
  ℕ, suc, ◌+◌, ◌≤◌, ◌≡◌, refl, Bool, true, false, List, [], ◌∷◌, ◌++◌, arith, some, Text, text_eq,
  count, if◌then◌else◌, Bool-cases, inl, inr, ap, sym, subst, ◌∙◌,
}
use cake_splitter.Format.Manifest.{External}
use cake_splitter.Runtime.Record.{DesktopPreferences}
use cake_splitter.Runtime.Store.Methods.{matches_update, written, update_where}
use cake_splitter.Runtime.Store.{
  StoredRow, Codec, read_row, is_nonterminal_row, count_nonterminal, delete_where,
  prune_with_preferences,
}

-- deleting never makes a count grow
pub count-delete_where-le :
    (p q : StoredRow → Bool) (rows : List StoredRow) → count p (delete_where q rows) ≤ count p rows
unfolding delete_where
count-delete_where-le p q [] = omega arith
count-delete_where-le p q (row ∷ rows) = ground (arith, count-delete_where-le p q rows)

-- deleting rows that are not counted leaves the count
pub count-delete_where_other :
    (p q : StoredRow → Bool) (rows : List StoredRow)
    → ((row : StoredRow) → q row ≡ true → p row ≡ false)
    → count p (delete_where q rows) ≡ count p rows
unfolding delete_where
count-delete_where_other p q [] h = refl
count-delete_where_other p q (row ∷ rows) h =
    ground (arith, count-delete_where_other p q rows h, h row)

pub count-append :
    (p : StoredRow → Bool) (rows : List StoredRow) (row : StoredRow)
    → count p (rows ++ row ∷ []) ≡ (if p row then suc (count p rows) else count p rows)
count-append p [] row = ground arith
count-append p (r ∷ rows) row = ground (arith, count-append p rows row)

module _ {Json : Type 0} (x : External) (c : Codec Json) (now : Text)
    (preferences : DesktopPreferences) where
  -- Pruning removes no nonterminal row.
  pub count_nonterminal-prune :
      (rows : List StoredRow)
      → count_nonterminal (prune_with_preferences x c now preferences rows) ≡ count_nonterminal rows
  unfolding prune_with_preferences count_nonterminal
  count_nonterminal-prune rows =
      count-delete_where_other is_nonterminal_row _ _ (λ row h. ground arith)
      ∙ count-delete_where_other is_nonterminal_row _ rows (λ row h. ground arith)

module _ (new : StoredRow) (revision epoch : ℕ) where
  update-none :
      (rows : List StoredRow)
      → count (matches_update new revision epoch) rows ≡ 0
      → update_where rows new revision epoch ≡ rows
  unfolding update_where
  update-none [] h = refl
  update-none (row ∷ rows) h = elim (Bool-cases (matches_update new revision epoch row)) [
    | inl hit ↦ absurd (ground (arith, hit, h))
    | inr miss ↦
        rw (miss, update_where)
          (ap (λ rest. row ∷ rest) (update-none rows (ground (arith, miss, h))))
  ]

  update-cons :
      (row : StoredRow) (rows : List StoredRow)
      → update_where (row ∷ rows) new revision epoch ≡ (
          if matches_update new revision epoch row
          then written new row ∷ update_where rows new revision epoch
          else row ∷ update_where rows new revision epoch)
  unfolding update_where
  update-cons row rows = refl

  update_hit :
      (rows : List StoredRow) (row : StoredRow)
      → matches_update new revision epoch row ≡ true
      → count (matches_update new revision epoch) rows ≡ 0
      → update_where (row ∷ rows) new revision epoch ≡ written new row ∷ rows
  update_hit rows row hit rest =
      update-cons row rows
      ∙ ap
          (λ b.
            if b
            then written new row ∷ update_where rows new revision epoch
            else row ∷ update_where rows new revision epoch)
          hit
      ∙ ap (λ rest. written new row ∷ rest) (update-none rows rest)

  count-update_hit :
      (p : StoredRow → Bool) (rows : List StoredRow) (row : StoredRow)
      → matches_update new revision epoch row ≡ true
      → count (matches_update new revision epoch) rows ≡ 0
      → count p (update_where (row ∷ rows) new revision epoch) + (if p row then 1 else 0)
        ≡ count p (row ∷ rows) + (if p (written new row) then 1 else 0)
  count-update_hit p rows row hit rest = rw (update_hit rows row hit rest) (ground arith)

  count-update_miss :
      (p : StoredRow → Bool) (rows : List StoredRow) (r row : StoredRow)
      → matches_update new revision epoch r ≡ false
      → count p (update_where rows new revision epoch) + (if p row then 1 else 0)
        ≡ count p rows + (if p (written new row) then 1 else 0)
      → count p (update_where (r ∷ rows) new revision epoch) + (if p row then 1 else 0)
        ≡ count p (r ∷ rows) + (if p (written new row) then 1 else 0)
  count-update_miss p rows r row miss ih = rw (update-cons, miss) (ground (arith, ih))

  hit_rest :
      (r : StoredRow) (rows : List StoredRow)
      → matches_update new revision epoch r ≡ true
      → count (matches_update new revision epoch) (r ∷ rows) ≡ 1
      → count (matches_update new revision epoch) rows ≡ 0
  hit_rest r rows hit one = ground (arith, hit, one)

  -- An UPDATE of one row moves the count by that row's old and new value.
  pub count-update :
      (p : StoredRow → Bool) (rows : List StoredRow) (row : StoredRow)
      → read_row rows new.id ≡ some row
      → matches_update new revision epoch row ≡ true
      → count (matches_update new revision epoch) rows ≡ 1
      → count p (update_where rows new revision epoch) + (if p row then 1 else 0)
        ≡ count p rows + (if p (written new row) then 1 else 0)
  unfolding read_row
  count-update p [] row found hit one = cc
  count-update p (r ∷ rows) row found hit one = elim (Bool-cases (text_eq r.id new.id)) [
    | inl same ↦
        let e : r ≡ row = ground (arith, same, found) in
        let hit_r = subst (λ s. matches_update new revision epoch s ≡ true) (sym e) hit in
        subst
          (λ s.
            count p (update_where (r ∷ rows) new revision epoch) + (if p s then 1 else 0)
            ≡ count p (r ∷ rows) + (if p (written new s) then 1 else 0))
          e (count-update_hit p rows r hit_r (hit_rest r rows hit_r one))
    | inr other ↦
        let miss : matches_update new revision epoch r ≡ false = ground (arith, other) in
        count-update_miss p rows r row miss
          (count-update p rows row (ground (arith, other, found)) hit (ground (arith, miss, one)))
  ]
