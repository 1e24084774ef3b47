-- ===== src/Db/Predicate/Tests.antt =====
-- The theorem on filters at a concrete result and predicate.
use bypass_io.Prelude.{ℕ, Bool, List, [], ◌∷◌, ◌++◌, replicate}
use bypass_io.Db.Schema.{f64}
use bypass_io.Db.Mapped.{MappedColumn}
use bypass_io.Db.Rows.{all}
use bypass_io.Db.Scan.{Chunk, owned, mapped, ScanResult, f64_chunks}
use bypass_io.Db.Predicate.{ColumnPredicate, gt_predicate, range_predicate}

-- 1.5 and 2.5 in a file, 3.5 in memory.
abbrev prices : MappedColumn
prices = record {
  name = b'p' ∷ [];
  dtype = f64;
  row_count = 2;
  mmap = replicate 6 0 ++ (248 ∷ 63 ∷ replicate 6 0 ++ (4 ∷ 64 ∷ []));
}

abbrev price_chunks : List (Chunk ℕ)
price_chunks =
    mapped (record { column = prices; rows = all 2 }) ∷ owned (4615063718147915776 ∷ []) ∷ []

abbrev ticks : ScanResult
ticks = record { columns = (b'p' ∷ [], f64_chunks price_chunks) ∷ []; row_count = 3 }

-- Above 2.0.
abbrev above_two : ColumnPredicate
above_two = gt_predicate (b'p' ∷ []) 4611686018427387904
