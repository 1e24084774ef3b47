-- ===== src/Db/Rows.antt =====
-- `RowSelection` of bypass-db/src/scan.rs: which rows of a mapped column a chunk selects.
pub mod Order
mod Tests
use bypass_io.Prelude.{
  ℕ, zero, suc, ◌+◌, ◌==◌, Bool, true, false, ◌&&◌, List, [], ◌∷◌, Option, none, some, length,
  get_elem?, if◌then◌else◌, ltb,
}

pub data RowSelection : Type 0 where
  all : (len : ℕ) → RowSelection
  range : (start len : ℕ) → RowSelection
  indices : List ℕ → RowSelection

-- The elements are the numbers from `n` on.
unfoldable pub counts_from : ℕ → List ℕ → Bool
counts_from n [] = true
counts_from n (i ∷ is) = i == n && counts_from (suc n) is

-- The length is compared first, so `eq(0..total_rows)` is a count from 0.
unfoldable pub from_indices : List ℕ → ℕ → RowSelection
unfolding counts_from
from_indices [] total_rows = if 0 == total_rows then all total_rows else range 0 0
from_indices (first ∷ rest) total_rows =
    if length (first ∷ rest) == total_rows && counts_from 0 (first ∷ rest)
    then all total_rows
    else if counts_from (first + 1) rest
    then range first (length (first ∷ rest))
    else indices (first ∷ rest)

unfoldable pub len : RowSelection → ℕ
len (all n) = n
len (range start n) = n
len (indices is) = length is

unfoldable pub is_empty : RowSelection → Bool
unfolding len
is_empty rows = len rows == 0

unfoldable pub is_identity : RowSelection → Bool
is_identity (all n) = true
is_identity (range start n) = false
is_identity (indices is) = false

unfoldable pub index_at : RowSelection → ℕ → Option ℕ
index_at (all n) local_idx = if ltb local_idx n then some local_idx else none
index_at (range start n) local_idx = if ltb local_idx n then some (start + local_idx) else none
index_at (indices is) local_idx = get_elem? is local_idx

-- `RowSelectionIter::next` until it returns `None`, from `next` on.
unfoldable pub rows_from : ℕ → RowSelection → ℕ → List ℕ
rows_from zero rows next = []
rows_from (suc fuel) rows next = elim (index_at rows next) [
  | none ↦ []
  | some value ↦ value ∷ rows_from fuel rows (suc next)
]

-- All that the iterator gives; it stops after `len` rows.
unfoldable pub iter : RowSelection → List ℕ
unfolding rows_from len
iter rows = rows_from (suc (len rows)) rows 0

-- `filter_map(|local_idx| self.index_at(local_idx))`
unfoldable pub select_rows : RowSelection → List ℕ → List ℕ
select_rows rows [] = []
select_rows rows (i ∷ is) = elim (index_at rows i) [
  | none ↦ select_rows rows is
  | some v ↦ v ∷ select_rows rows is
]

unfoldable pub take_local_indices : RowSelection → List ℕ → RowSelection
unfolding select_rows len
take_local_indices rows local_indices = from_indices (select_rows rows local_indices) (len rows)
