-- ===== src/Db/Rows/Tests.antt =====
-- The theorems on row selections at concrete selections.
use bypass_io.Prelude.{◌≡◌, refl, [], ◌∷◌, some, arith}
use bypass_io.Db.Batch.{pick}
use bypass_io.Db.Rows.{range, from_indices, iter, len, take_local_indices}
use bypass_io.Db.Rows.Order.{iter-from_indices, take_local_indices-iter}

-- Rows that follow each other become a range.
range_found : from_indices (3 ∷ 4 ∷ 5 ∷ []) 8 ≡ range 3 3
unfolding from_indices
range_found = refl

iter-from_indices_example : iter (from_indices (3 ∷ 7 ∷ 4 ∷ []) 8) ≡ 3 ∷ 7 ∷ 4 ∷ []
iter-from_indices_example = iter-from_indices (3 ∷ 7 ∷ 4 ∷ []) 8

take_local_indices-iter_example :
    pick (iter (range 3 4)) (3 ∷ 0 ∷ []) ≡ some (iter (take_local_indices (range 3 4) (3 ∷ 0 ∷ [])))
take_local_indices-iter_example =
    take_local_indices-iter (range 3 4) (3 ∷ 0 ∷ [])
      (unfold len in (omega arith, (omega arith, tt)))
