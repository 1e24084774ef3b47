-- ===== src/Db/Mapped/Values.antt =====
-- The accessors of `MappedColumn` against the words that its bytes hold.
use bypass_io.Prelude.{
  ℕ, zero, suc, ◌+◌, ◌-◌, ◌*◌, ◌/◌, true, ◌^◌, ◌<◌, ◌≡◌, sym, ap, ◌∙◌, Bool-cases, inl, inr, List,
  map, some, none, length, get_elem?, take, drop, drop-drop, arith, ltb, if◌then◌else◌,
  from_le_bytes,
}
use bypass_io.Db.Schema.{f64, dtype_eq}
use bypass_io.Db.Payload.{slice}
use bypass_io.Db.Mapped.{MappedColumn, value_bytes, f64_value, i64_value, is_i64, word_of}
use bypass_io.Db.Segment.{chunks}
use bypass_io.Db.Simd.{words_of}

get_elem?-chunks :
    (n i : ℕ) (bs : List ℕ)
    → get_elem? (map from_le_bytes (chunks n 8 bs)) i
      ≡ (if ltb i n then some (from_le_bytes (take 8 (drop (i * 8) bs))) else none)
unfolding chunks
get_elem?-chunks zero i bs = ground arith
get_elem?-chunks (suc n) zero bs = ground arith
get_elem?-chunks (suc n) (suc i) bs =
    ground
      (arith, get_elem?-chunks n i (drop 8 bs), drop-drop (i * 8) 8 bs, ap (λ k. drop k bs) next)
  where
    next : suc i * 8 ≡ 8 + i * 8
    next = omega arith

-- The word at an index is there exactly if the index is below the number of words.
value_bytes-word :
    (c : MappedColumn) (n i : ℕ)
    → length c.mmap ≡ n * 8
    → n * 8 < 2 ^ 64
    → word_of (value_bytes c 8 i) ≡ get_elem? (map from_le_bytes (chunks n 8 c.mmap)) i
unfolding value_bytes slice
value_bytes-word c n i size small = elim (Bool-cases (ltb i n)) [
  | inl e ↦
      ground (arith, get_elem?-chunks n i c.mmap, ap (λ k. take k (drop (i * 8) c.mmap)) (eight i))
  | inr e ↦ ground (arith, get_elem?-chunks n i c.mmap)
]
  where
    eight : (j : ℕ) → j * 8 + 8 - j * 8 ≡ 8
    eight j = omega arith

-- A mapped column of `n` whole words of the type asked for gives, at each index, the word there, and
-- none past the end.
pub f64_value-words :
    (c : MappedColumn) (n i : ℕ)
    → length c.mmap ≡ n * 8
    → n * 8 < 2 ^ 64
    → (c.dtype ≡ f64 → f64_value c i ≡ get_elem? (words_of c.mmap) i)
      × (is_i64 c.dtype ≡ true → i64_value c i ≡ get_elem? (words_of c.mmap) i)
unfolding f64_value i64_value dtype_eq words_of
f64_value-words c n i size small =
    (λ typed. ground (arith, typed, here), λ typed. ground (arith, typed, here))
  where
    whole : length c.mmap / 8 ≡ n
    whole = omega (arith, size)

    here :
        word_of (value_bytes c 8 i)
        ≡ get_elem? (map from_le_bytes (chunks (length c.mmap / 8) 8 c.mmap)) i
    here =
        value_bytes-word c n i size small
        ∙ ap (λ k. get_elem? (map from_le_bytes (chunks k 8 c.mmap)) i) (sym whole)
