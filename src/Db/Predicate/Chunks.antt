-- ===== src/Db/Predicate/Chunks.antt =====
-- The fast paths of the filters of bypass-db/src/scan.rs, chunk by chunk.
use bypass_io.Prelude.{
  ℕ, zero, suc, ◌+◌, ◌*◌, ◌^◌, ◌<◌, ◌≡◌, refl, sym, ap, ap₂, ◌∙◌, Bool, true, false, List, [], ◌∷◌,
  ◌++◌, some, map, ok, length, get_elem?, arith, length-append, length-map, ◌/◌, ◌%◌, drop,
  from_le_bytes, get_elem?_total, append_assoc, get_elem?-append_right, ◌==◌,
}
use bypass_io.Prelude.Predicates.{All}
use bypass_io.Db.Schema.{f64}
use bypass_io.Db.Float.{f64_gt}
use bypass_io.Db.Mapped.{MappedColumn, f64_value}
use bypass_io.Db.Mapped.Values.{f64_value-words}
use bypass_io.Db.Rows.{RowSelection, all, range, indices, len, iter, is_identity}
use bypass_io.Db.Rows.Order.{count, iter-all}
use bypass_io.Db.Segment.{chunks}
use bypass_io.Db.Simd.{
  positions, words_of, passes, in_range_f64, selected_positions, range_filter_f64_bytes,
  gt_filter_f64_bytes, range_filter_f64_values, gt_filter_f64_values, range_filter_f64_selection,
  gt_filter_f64_selection, scalar_range_filter_f64, scalar_gt_filter_f64,
}
use bypass_io.Db.Simd.Lanes.{f64_filters-avx}
use bypass_io.Db.Scan.{Chunk, owned, mapped, mapped_values, chunk_values, MappedSelection}
use bypass_io.Db.Scan.Values.{Complete}
use bypass_io.Db.Predicate.{range_local, gt_local}

module _ {A : Type 0} (test : A → Bool) where
  pub positions-append :
      (base : ℕ) (xs ys : List A)
      → positions test base (xs ++ ys)
        ≡ positions test base xs ++ positions test (base + length xs) ys
  unfolding positions
  positions-append base [] ys = ap (λ b. positions test b ys) (omega arith)
  positions-append base (x ∷ xs) ys = ground (
    arith,
    positions-append (suc base) xs ys,
    ap (λ b. positions test b ys) (shift base (length xs)),
  )
    where
      shift : (b n : ℕ) → suc b + n ≡ b + suc n
      shift b n = omega arith

  -- Positions from a base are those from 0, moved.
  pub positions-shift :
      (base from : ℕ) (xs : List A)
      → map (λ i. base + i) (positions test from xs) ≡ positions test (base + from) xs
  unfolding positions
  positions-shift base from [] = refl
  positions-shift base from (x ∷ xs) =
      ground
        (arith, positions-shift base (suc from) xs, ap (λ b. positions test b xs) (next base from))
    where
      next : (b n : ℕ) → b + suc n ≡ suc (b + n)
      next b n = omega arith

-- The rows of the selection, tested by their values.
selected_positions-mapped_values :
    (test : ℕ → Bool) (column : MappedColumn) (base : ℕ) (is : List ℕ)
    → All (λ i. (v : ℕ) × (f64_value column i ≡ some v)) is
    → positions (λ i. passes test (f64_value column i)) base is
      ≡ positions test base (mapped_values f64_value column is)
unfolding positions mapped_values
selected_positions-mapped_values test column base [] h = refl
selected_positions-mapped_values test column base (i ∷ is) h =
    ground (arith, h.0.1, selected_positions-mapped_values test column (suc base) is h.1)

plus_zero : (n : ℕ) → n ≡ n + 0
plus_zero n = omega arith

one_more : (front : List ℕ) (w : ℕ) → suc (length front) ≡ length (front ++ (w ∷ []))
one_more front w = omega (arith, length-append front (w ∷ []))

-- All rows of a column of words give the words.
mapped_values-count :
    (column : MappedColumn) (words : List ℕ) (front rest : List ℕ)
    → words ≡ front ++ rest
    → ((i : ℕ) → f64_value column i ≡ get_elem? words i)
    → mapped_values f64_value column (count (length front) (length rest)) ≡ rest
unfolding mapped_values
mapped_values-count column words front [] split at = refl
mapped_values-count column words front (w ∷ rest) split at = ground (
  arith,
  here,
  ap (λ k. mapped_values f64_value column (count k (length rest))) (one_more front w),
  mapped_values-count column words (front ++ (w ∷ [])) rest
      (split ∙ sym (append_assoc front (w ∷ []) rest)) at,
)
  where
    here : f64_value column (length front) ≡ some w
    here =
        at (length front)
        ∙ ap₂ get_elem? split (plus_zero (length front))
        ∙ get_elem?-append_right front (w ∷ rest) 0

-- A chunk of a sealed column: whole words, with rows that are in range, and all of them in an
-- identity selection.
abbrev pub Sound : Chunk ℕ → Type 0
Sound (owned vs) = Unit
Sound (mapped s) =
    (s.column.dtype ≡ f64)
    × (length s.column.mmap ≡ s.column.row_count * 8)
    × (s.column.row_count * 8 < 2 ^ 64)
    × All (λ i. i < s.column.row_count) (iter s.rows)
    × (is_identity s.rows ≡ true → len s.rows ≡ s.column.row_count)

length-chunks : (n w : ℕ) (bs : List ℕ) → length (chunks n w bs) ≡ n
unfolding chunks
length-chunks zero w bs = refl
length-chunks (suc n) w bs = ap suc (length-chunks n w (drop w bs))

length-words_of : (n : ℕ) (bs : List ℕ) → length bs ≡ n * 8 → length (words_of bs) ≡ n
unfolding words_of
length-words_of n bs size = omega (
  arith,
  length-map (chunks (length bs / 8) 8 bs) from_le_bytes,
  length-chunks (length bs / 8) 8 bs,
)

pub Sound-Complete : (c : Chunk ℕ) → Sound c → Complete f64_value c
Sound-Complete (owned vs) h = tt
Sound-Complete (mapped s) h = each (iter s.rows) h.3
  where
    each :
        (is : List ℕ)
        → All (λ i. i < s.column.row_count) is
        → All (λ i. (v : ℕ) × (f64_value s.column i ≡ some v)) is
    each [] b = tt
    each (i ∷ is) b =
        let (v, e) =
          get_elem?_total (words_of s.column.mmap) i
            (omega (arith, length-words_of s.column.row_count s.column.mmap h.1, b.0)) in
        ((v, (f64_value-words s.column s.column.row_count i h.1 h.2).0 h.0 ∙ e), each is b.1)

-- An identity selection of a sound chunk has the words of the file.
identity_values :
    (s : MappedSelection) (n : ℕ)
    → Sound (mapped s)
    → s.rows ≡ all n
    → mapped_values f64_value s.column (iter s.rows) ≡ words_of s.column.mmap
unfolding len is_identity
identity_values s n h e =
    ap (λ r. mapped_values f64_value s.column (iter r)) e
    ∙ ap (mapped_values f64_value s.column) (iter-all n)
    ∙ ap (λ k. mapped_values f64_value s.column (count 0 k)) size
    ∙ mapped_values-count s.column (words_of s.column.mmap) [] (words_of s.column.mmap) refl
        (λ i. (f64_value-words s.column s.column.row_count i h.1 h.2).0 h.0)
  where
    size : n ≡ length (words_of s.column.mmap)
    size =
        sym (ap len e)
        ∙ h.4 (ap is_identity e)
        ∙ sym (length-words_of s.column.row_count s.column.mmap h.1)

-- The bytes of whole words are filtered without an error.
bytes_filter_plain :
    (bs : List ℕ) (n min max : ℕ)
    → length bs ≡ n * 8
    → (range_filter_f64_bytes false bs min max
        ≡ ok (positions (in_range_f64 min max) 0 (words_of bs)))
      × (gt_filter_f64_bytes false bs min ≡ ok (positions (λ v. f64_gt v min) 0 (words_of bs)))
unfolding range_filter_f64_bytes gt_filter_f64_bytes
bytes_filter_plain bs n min max size = (rw whole refl, rw whole refl)
  where
    whole : (length bs % 8 == 0) ≡ true
    whole = ground (arith, size)

bytes_filter :
    (avx : Bool) (bs : List ℕ) (n min max : ℕ)
    → length bs ≡ n * 8
    → (range_filter_f64_bytes avx bs min max
        ≡ ok (positions (in_range_f64 min max) 0 (words_of bs)))
      × (gt_filter_f64_bytes avx bs min ≡ ok (positions (λ v. f64_gt v min) 0 (words_of bs)))
bytes_filter true bs n min max size =
    let both = f64_filters-avx bs [] min max in
    let plain = bytes_filter_plain bs n min max size in (both.2 ∙ plain.0, both.3 ∙ plain.1)
bytes_filter false bs n min max size = bytes_filter_plain bs n min max size

values_filter :
    (avx : Bool) (vs : List ℕ) (min max : ℕ)
    → (range_filter_f64_values avx vs min max ≡ positions (in_range_f64 min max) 0 vs)
      × (gt_filter_f64_values avx vs min ≡ positions (λ v. f64_gt v min) 0 vs)
unfolding range_filter_f64_values gt_filter_f64_values scalar_range_filter_f64 scalar_gt_filter_f64
values_filter true vs min max = let both = f64_filters-avx [] vs min max in (both.0, both.1)
values_filter false vs min max = (refl, refl)

selected :
    (test : ℕ → Bool) (s : MappedSelection)
    → Sound (mapped s)
    → selected_positions test s.column s.rows
      ≡ positions test 0 (mapped_values f64_value s.column (iter s.rows))
unfolding selected_positions
selected test s h =
    selected_positions-mapped_values test s.column 0 (iter s.rows) (Sound-Complete (mapped s) h)

-- What a fast path finds in a mapped chunk, by the form of its selection.
mapped_filters :
    (avx : Bool) (s : MappedSelection) (rows : RowSelection) (min max : ℕ)
    → s.rows ≡ rows
    → Sound (mapped s)
    → (range_filter_f64_selection avx s.column s.rows min max
        ≡ positions (in_range_f64 min max) 0 (mapped_values f64_value s.column (iter s.rows)))
      × (gt_filter_f64_selection avx s.column s.rows min
          ≡ positions (λ v. f64_gt v min) 0 (mapped_values f64_value s.column (iter s.rows)))
unfolding range_filter_f64_selection gt_filter_f64_selection is_identity
mapped_filters avx s (all n) min max e h =
    let both = bytes_filter avx s.column.mmap s.column.row_count min max h.1 in
    let same = identity_values s n h e in
    (
      rw (ap is_identity e, both.0) (ap (positions (in_range_f64 min max) 0) (sym same)),
      rw (ap is_identity e, both.1) (ap (positions (λ v. f64_gt v min) 0) (sym same)),
    )
mapped_filters avx s (range start n) min max e h =
    (rw (ap is_identity e) (selected _ s h), rw (ap is_identity e) (selected _ s h))
mapped_filters avx s (indices is) min max e h =
    (rw (ap is_identity e) (selected _ s h), rw (ap is_identity e) (selected _ s h))

-- What a fast path finds in a chunk.
pub local_filters :
    (avx : Bool) (c : Chunk ℕ) (min max : ℕ)
    → Sound c
    → (range_local avx min max c ≡ positions (in_range_f64 min max) 0 (chunk_values f64_value c))
      × (gt_local avx min c ≡ positions (λ v. f64_gt v min) 0 (chunk_values f64_value c))
unfolding range_local gt_local chunk_values
local_filters avx (owned vs) min max h = values_filter avx vs min max
local_filters avx (mapped s) min max h = mapped_filters avx s s.rows min max refl h
