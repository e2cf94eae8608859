-- ===== src/Runtime/Reorder/Rows.antt =====
-- The rows of the table after the UPDATE of `write_record`.
use cake_splitter.Prelude.{
  ℕ, ◌<◌, ◌≡◌, refl, ap, ◌∙◌, true, false, List, [], ◌∷◌, Text, codes, text_eq, text_eq_iff, any,
  count, arith,
}
use cake_splitter.Runtime.Status.{sql_terminal}
use cake_splitter.Runtime.Store.{StoredRow, read_row, is_nonterminal_row}
use cake_splitter.Runtime.Reorder.{is_target, update_target}
use cake_splitter.Runtime.Reorder.Places.{is_queued_row}

not_that : (s t id : Text) → text_eq t id ≡ false → text_eq s t ≡ true → text_eq s id ≡ false
not_that s t id other same = ap (λ r. text_eq r id) ((text_eq_iff s t).0 same) ∙ other

pub queued_live : (name : Text) → text_eq name (codes "queued") ≡ true → sql_terminal name ≡ false
unfolding sql_terminal
queued_live name h = ap sql_terminal ((text_eq_iff name (codes "queued")).0 h)

-- a row of another id is read as before
pub read_row-update_target :
    (rows : List StoredRow) (new : StoredRow) (id : Text)
    → text_eq new.id id ≡ false
    → read_row (update_target rows new) id ≡ read_row rows id
unfolding read_row update_target
read_row-update_target [] new id other = refl
read_row-update_target (row ∷ rows) new id other =
    ground (arith, other, read_row-update_target rows new id other, not_that row.id new.id id other)

pub none_left :
    (rows : List StoredRow) (new : StoredRow)
    → count (is_target new) rows ≡ 0
    → update_target rows new ≡ rows
unfolding update_target
none_left [] new h = refl
none_left (row ∷ rows) new h = ground (arith, none_left rows new)

one_queued :
    (rows : List StoredRow) (new : StoredRow)
    → any (is_queued_row new.id new.epoch) rows ≡ true
    → 0 < count (is_target new) rows
one_queued [] new h = cc
one_queued (row ∷ rows) new h = ground (arith, one_queued rows new)

-- the only row of an id and an epoch stays queued
pub count-update_target :
    (rows : List StoredRow) (new : StoredRow)
    → sql_terminal new.status ≡ false
    → any (is_queued_row new.id new.epoch) rows ≡ true
    → count (is_target new) rows ≡ 1
    → count is_nonterminal_row (update_target rows new) ≡ count is_nonterminal_row rows
unfolding update_target
count-update_target [] new s h one = refl
count-update_target (row ∷ rows) new s h one = ground (
  arith,
  s,
  h,
  one,
  none_left rows new,
  one_queued rows new,
  queued_live row.status,
  count-update_target rows new s,
)

pub queued-update_target :
    (rows : List StoredRow) (new : StoredRow) (id : Text) (epoch : ℕ)
    → text_eq new.status (codes "queued") ≡ true
    → any (is_queued_row id epoch) rows ≡ true
    → any (is_queued_row id epoch) (update_target rows new) ≡ true
unfolding update_target
queued-update_target [] new id epoch s h = h
queued-update_target (row ∷ rows) new id epoch s h =
    ground (arith, s, h, queued-update_target rows new id epoch s)
