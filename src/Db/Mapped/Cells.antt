-- ===== src/Db/Mapped/Cells.antt =====
-- What the accessors of a mapped column of bypass-db/src/segment.rs find in the file of a sealed
-- column.
use native.Mathlib.Nat.{mul-le-mul_right}
use bypass_io.Prelude.{
  ℕ, zero, suc, ◌+◌, ◌-◌, ◌*◌, ◌/◌, ◌^◌, ◌<◌, ◌≤◌, ◌≡◌, ◌⊎◌, get_elem?-lt, refl, sym, ap, ◌∙◌, true,
  List, [], ◌∷◌, Option, none, some, ok, length, get_elem?, take, drop, drop-drop, map, arith,
  from_le_bytes, inl, inr,
}
use bypass_io.Prelude.Predicates.{All}
use bypass_io.Db.Schema.{DType, f64, fixed_str}
use bypass_io.Db.Batch.{ColumnData, f64_data, fixed_str_data, pick}
use bypass_io.Db.Mapped.{
  MappedColumn, value_bytes, f64_value, i64_value, is_i64, fixed_str_value, fixed_str_of,
}
use bypass_io.Db.Mapped.Values.{f64_value-words}
use bypass_io.Db.Payload.{slice}
use bypass_io.Db.Segment.{column_bytes, column_words, chunks}
use bypass_io.Db.Segment.Files.{
  Sealable, chunks-column_words, column_strings-chunks, length-column_words,
}
use bypass_io.Db.Simd.{words_of}
use bypass_io.Db.Scan.{mapped_values}

get_elem?-cases {ℓ} :
    {A : Type ℓ} (vs : List A) (i : ℕ)
    → ((v : A) × (get_elem? vs i ≡ some v)) ⊎ (get_elem? vs i ≡ none)
get_elem?-cases {A = A} vs i =
    elim (get_elem? vs i) as (λ o. ((v : A) × (o ≡ some v)) ⊎ (o ≡ none)) [
      | none ↦ inr refl
      | some v ↦ inl (v, refl)
    ]

pick-cases :
    {A : Type 0} (vs : List A) (is : List ℕ)
    → ((out : List A) × (pick vs is ≡ some out)) ⊎ (pick vs is ≡ none)
pick-cases {A = A} vs is =
    elim (pick vs is) as (λ o. ((out : List A) × (o ≡ some out)) ⊎ (o ≡ none)) [
      | none ↦ inr refl
      | some out ↦ inl (out, refl)
    ]

mapped_values-pick :
    {A : Type 0} (value : MappedColumn → ℕ → Option A) (m : MappedColumn) (vs : List A)
    (is : List ℕ) (out : List A)
    → ((i : ℕ) → i < length vs → value m i ≡ get_elem? vs i)
    → pick vs is ≡ some out
    → mapped_values value m is ≡ out
unfolding mapped_values pick
mapped_values-pick value m vs [] out agree e = ground (arith, e)
mapped_values-pick value m vs (i ∷ is) out agree e = elim (get_elem?-cases vs i) [
  | inl found ↦ elim (pick-cases vs is) [
    | inl rest ↦ ground (
      arith,
      e,
      found.1,
      rest.1,
      agree i (get_elem?-lt vs i found.1),
      mapped_values-pick value m vs is rest.0 agree rest.1,
    )
    | inr none_left ↦ absurd (ground (arith, e, found.1, none_left))
  ]
  | inr missing ↦ absurd (ground (arith, e, missing))
]

pub words_of-column_words :
    (vs : List ℕ) → All (λ v. v < 2 ^ 64) vs → words_of (column_words vs) ≡ vs
unfolding words_of
words_of-column_words vs h =
    ap (λ n. map from_le_bytes (chunks n 8 (column_words vs))) whole ∙ chunks-column_words vs h
  where
    whole : length (column_words vs) / 8 ≡ length vs
    whole = omega (arith, length-column_words vs)

get_elem?-chunks_strings :
    (n i w : ℕ) (bs : List ℕ)
    → i < n
    → get_elem? (chunks n w bs) i ≡ some (take w (drop (i * w) bs))
unfolding chunks
get_elem?-chunks_strings zero i w bs h = absurd (omega arith)
get_elem?-chunks_strings (suc n) zero w bs h = ap (λ (k : ℕ). some (take w (drop k bs))) none_before
  where
    none_before : 0 ≡ 0 * w
    none_before = ground arith
get_elem?-chunks_strings (suc n) (suc i) w bs h =
    get_elem?-chunks_strings n i w (drop w bs) (omega arith)
    ∙ ap (λ l. some (take w l)) (drop-drop (i * w) w bs ∙ ap (λ k. drop k bs) next)
  where
    next : w + i * w ≡ suc i * w
    next = ground arith

-- The values of a mapped column are those of the column that was sealed.
abbrev pub IsFile : MappedColumn → DType → ColumnData → Type 0
IsFile m dtype d = (m.dtype ≡ dtype) × (column_bytes d ≡ ok m.mmap)

words_read :
    (m : MappedColumn) (vs : List ℕ) (i : ℕ)
    → m.mmap ≡ column_words vs
    → All (λ v. v < 2 ^ 64) vs
    → length vs * 8 < 2 ^ 64
    → (m.dtype ≡ f64 → f64_value m i ≡ get_elem? vs i)
      × (is_i64 m.dtype ≡ true → i64_value m i ≡ get_elem? vs i)
words_read m vs i e h small =
    let size : length m.mmap ≡ length vs * 8 = ap length e ∙ length-column_words vs in
    let found = f64_value-words m (length vs) i size small in
    let same : get_elem? (words_of m.mmap) i ≡ get_elem? vs i =
      ap (λ b. get_elem? (words_of b) i) e ∙ ap (λ l. get_elem? l i) (words_of-column_words vs h) in
    (λ typed. found.0 typed ∙ same, λ typed. found.1 typed ∙ same)

value_bytes-inside :
    (m : MappedColumn) (w i : ℕ)
    → i * w + w ≤ length m.mmap
    → i * w + w < 2 ^ 64
    → value_bytes m w i ≡ some (take w (drop (i * w) m.mmap))
unfolding value_bytes slice
value_bytes-inside m w i fits small =
    ground (arith, fits, small, ap (λ n. some (take n (drop (i * w) m.mmap))) width)
  where
    width : i * w + w - i * w ≡ w
    width = omega arith

strings_read :
    (m : MappedColumn) (w : ℕ) (vs : List (List ℕ)) (i : ℕ)
    → m.dtype ≡ fixed_str w
    → column_bytes (fixed_str_data w vs) ≡ ok m.mmap
    → All (λ v. length v ≡ w) vs
    → length vs * w < 2 ^ 64
    → i < length vs
    → fixed_str_value m i ≡ get_elem? vs i
unfolding fixed_str_value fixed_str_of column_bytes
strings_read m w vs i typed e h small lt =
    let (bs, written, size, cut) = column_strings-chunks w vs h in
    let same : bs ≡ m.mmap = ground (arith, written, e) in
    let below : suc i * w ≤ length vs * w = mul-le-mul_right w lt in
    let next : suc i * w ≡ i * w + w = ground arith in
    let found : get_elem? vs i ≡ some (take w (drop (i * w) m.mmap)) =
      ap (λ l. get_elem? l i) (sym cut)
      ∙ get_elem?-chunks_strings (length vs) i w bs lt
      ∙ ap (λ b. some (take w (drop (i * w) b))) same in
    ap (λ t. fixed_str_of t m i) typed
    ∙ value_bytes-inside m w i (omega (arith, below, next, size, ap length same))
        (omega (arith, below, next, small))
    ∙ sym found

-- What the chunk of a mapped column reads of a sealed column, for each type.
pub f64_picked :
    (m : MappedColumn) (vs : List ℕ) (is out : List ℕ)
    → IsFile m f64 (f64_data vs)
    → Sealable (f64_data vs)
    → pick vs is ≡ some out
    → mapped_values f64_value m is ≡ out
unfolding column_bytes
f64_picked m vs is out file h e =
    mapped_values-pick f64_value m vs is out
      (λ i lt. (words_read m vs i (sym (ground (arith, file.1))) h.0 h.1).0 file.0) e

pub i64_picked :
    (m : MappedColumn) (dtype : DType) (d : ColumnData) (vs : List ℕ) (is out : List ℕ)
    → IsFile m dtype d
    → column_bytes d ≡ ok (column_words vs)
    → is_i64 dtype ≡ true
    → All (λ v. v < 2 ^ 64) vs
    → length vs * 8 < 2 ^ 64
    → pick vs is ≡ some out
    → mapped_values i64_value m is ≡ out
i64_picked m dtype d vs is out file same typed h small e =
    mapped_values-pick i64_value m vs is out
      (λ i lt.
        (words_read m vs i (ground (arith, file.1, same)) h small).1 (ap is_i64 file.0 ∙ typed))
      e

pub strings_picked :
    (m : MappedColumn) (w : ℕ) (vs : List (List ℕ)) (is : List ℕ) (out : List (List ℕ))
    → IsFile m (fixed_str w) (fixed_str_data w vs)
    → Sealable (fixed_str_data w vs)
    → pick vs is ≡ some out
    → mapped_values fixed_str_value m is ≡ out
strings_picked m w vs is out file h e =
    mapped_values-pick fixed_str_value m vs is out
      (λ i lt. strings_read m w vs i file.0 file.1 h.0 h.1 lt) e
