-- ===== src/Db/Mapped/Tests.antt =====
-- The theorem on mapped columns at a concrete one.
use bypass_io.Prelude.{◌≡◌, refl, true, [], ◌∷◌, ◌++◌, get_elem?, arith, replicate}
use bypass_io.Db.Schema.{f64}
use bypass_io.Db.Mapped.{MappedColumn, f64_value, i64_value, is_i64}
use bypass_io.Db.Mapped.Values.{f64_value-words}
use bypass_io.Db.Simd.{words_of}

abbrev two_words : MappedColumn
two_words = record {
  name = b'p' ∷ [];
  dtype = f64;
  row_count = 2;
  mmap = 7 ∷ replicate 7 0 ++ (9 ∷ replicate 7 0);
}

f64_value-words_example :
    (two_words.dtype ≡ f64 → f64_value two_words 1 ≡ get_elem? (words_of two_words.mmap) 1)
    × (is_i64 two_words.dtype ≡ true
        → i64_value two_words 1 ≡ get_elem? (words_of two_words.mmap) 1)
f64_value-words_example = f64_value-words two_words 2 1 refl (omega arith)
