-- ===== src/Db/Rows/Order.antt =====
-- `RowSelection` of bypass-db/src/scan.rs against the list of rows that it stands for.
use bypass_io.Prelude.{
  ℕ, zero, suc, ◌+◌, ◌<◌, ◌≡◌, refl, sym, ap, ap₂, ◌∙◌, true, List, [], ◌∷◌, none, some, length,
  get_elem?, arith, ltb, if◌then◌else◌, get_elem?_total,
}
use bypass_io.Prelude.Predicates.{All}
use bypass_io.Db.Batch.{pick}
use bypass_io.Db.Rows.{
  RowSelection, all, range, indices, counts_from, from_indices, len, index_at, rows_from, iter,
  select_rows, take_local_indices,
}

-- The rows from `start` on.
abbrev pub count : ℕ → ℕ → List ℕ
count start zero = []
count start (suc n) = start ∷ count (suc start) n

counts_from-eq-true : (n : ℕ) (is : List ℕ) → counts_from n is ≡ true → is ≡ count n (length is)
unfolding counts_from
counts_from-eq-true n [] h = refl
counts_from-eq-true n (i ∷ is) h =
    ap₂ ◌∷◌ (ground arith) (counts_from-eq-true (suc n) is (ground arith))

rows_from-all : (m n next : ℕ) → next + m ≡ n → rows_from (suc m) (all n) next ≡ count next m
unfolding rows_from index_at
rows_from-all zero n next e = ground arith
rows_from-all (suc m) n next e = ground (arith, rows_from-all m n (suc next) (omega arith))

rows_from-range :
    (m n start next : ℕ)
    → next + m ≡ n
    → rows_from (suc m) (range start n) next ≡ count (start + next) m
unfolding rows_from index_at
rows_from-range zero n start next e = ground arith
rows_from-range (suc m) n start next e =
    ground (arith, rows_from-range m n start (suc next) (omega arith))

rows_from-cons :
    (fuel i next : ℕ) (is : List ℕ)
    → rows_from fuel (indices (i ∷ is)) (suc next) ≡ rows_from fuel (indices is) next
unfolding rows_from index_at
rows_from-cons zero i next is = refl
rows_from-cons (suc fuel) i next is = ground (arith, rows_from-cons fuel i (suc next) is)

iter-indices : (is : List ℕ) → iter (indices is) ≡ is
unfolding iter len rows_from index_at
iter-indices [] = refl
iter-indices (i ∷ is) = ap (λ l. i ∷ l) (rows_from-cons (suc (length is)) i 0 is ∙ iter-indices is)

pub iter-all : (n : ℕ) → iter (all n) ≡ count 0 n
unfolding iter len
iter-all n = rows_from-all n n 0 (omega arith)

iter-range : (start n : ℕ) → iter (range start n) ≡ count start n
unfolding iter len
iter-range start n = rows_from-range n n start 0 (omega arith) ∙ ap (λ s. count s n) (omega arith)

-- Iterating over the selection that is made from a list of rows gives back the list, whichever of
-- the three forms was chosen.
pub iter-from_indices : (is : List ℕ) (total : ℕ) → iter (from_indices is total) ≡ is
unfolding from_indices
iter-from_indices [] total = ground (arith, iter-all total, iter-range 0 0)
iter-from_indices (i ∷ is) total = ground (
  arith,
  iter-all total,
  iter-range i (suc (length is)),
  iter-indices (i ∷ is),
  counts_from-eq-true 0 (i ∷ is),
  counts_from-eq-true (suc i) is,
)

get_elem?-count :
    (i start n : ℕ) → get_elem? (count start n) i ≡ (if ltb i n then some (start + i) else none)
get_elem?-count i start zero = ground arith
get_elem?-count zero start (suc n) = ground arith
get_elem?-count (suc i) start (suc n) = ground (arith, get_elem?-count i (suc start) n)

length-count : (start n : ℕ) → length (count start n) ≡ n
length-count start zero = refl
length-count start (suc n) = ap suc (length-count (suc start) n)

-- A selection is the list of its rows: it has as many, and finds the row of an index where the
-- list has it, and none past the end.
pub index_at-iter :
    (rows : RowSelection) (i : ℕ)
    → (index_at rows i ≡ get_elem? (iter rows) i) × (length (iter rows) ≡ len rows)
unfolding index_at len
index_at-iter (all n) i = ground (arith, iter-all n, get_elem?-count i 0 n, length-count 0 n)
index_at-iter (range start n) i =
    ground (arith, iter-range start n, get_elem?-count i start n, length-count start n)
index_at-iter (indices is) i =
    (ap (λ l. get_elem? l i) (sym (iter-indices is)), ap length (iter-indices is))

-- Local indices that are in range select, from the rows of a selection, those at the indices.
pub take_local_indices-iter :
    (rows : RowSelection) (locals : List ℕ)
    → All (λ i. i < len rows) locals
    → pick (iter rows) locals ≡ some (iter (take_local_indices rows locals))
unfolding take_local_indices pick select_rows
take_local_indices-iter rows locals h =
    picked locals h ∙ ap some (sym (iter-from_indices (select_rows rows locals) (len rows)))
  where
    picked :
        (is : List ℕ)
        → All (λ i. i < len rows) is
        → pick (iter rows) is ≡ some (select_rows rows is)
    picked [] h = refl
    picked (i ∷ is) h =
        let (v, e) = get_elem?_total (iter rows) i (omega (arith, (index_at-iter rows i).1, h.0)) in
        ground (arith, e, (index_at-iter rows i).0, picked is h.1)
