-- ===== src/Db/Payload/Tests.antt =====
-- The round trip of a concrete batch through the WAL payload.
use bypass_io.Prelude.{
  ℕ, ◌≡◌, refl, Bool, true, List, [], ◌∷◌, ◌&&◌, ok, arith, ltb, length, ◌<◌, ◌^◌,
}
use bypass_io.Db.Schema.{timestamp, fixed_str, Schema}
use bypass_io.Db.Batch.{timestamp_data, fixed_str_data, RowBatch, matches_dtype}
use bypass_io.Db.Payload.{encode_batch, decode_batch}
use bypass_io.Db.Payload.RoundTrip.{StoredAll, decode_batch-encode_batch}

-- Texts without a byte from 128 on are UTF-8.
abbrev is_ascii : List ℕ → Bool
is_ascii [] = true
is_ascii (b ∷ bs) = ltb b 128 && is_ascii bs

abbrev schema : Schema
schema = record {
  name = b'x' ∷ [];
  columns =
      record { name = b't' ∷ []; dtype = timestamp }
      ∷ record { name = b's' ∷ []; dtype = fixed_str 2 }
      ∷ [];
  timestamp_column = 0;
}

abbrev batch : RowBatch
batch = record {
  columns =
      (b't' ∷ [], timestamp_data (10 ∷ 20 ∷ []))
      ∷ (b's' ∷ [], fixed_str_data 2 ((b'M' ∷ b'S' ∷ []) ∷ (b'A' ∷ b'A' ∷ []) ∷ []))
      ∷ [];
  row_count = 2;
}

batch_stored : StoredAll is_ascii schema.columns batch.columns
unfolding matches_dtype
batch_stored = (
  record { named = refl; text = refl; short = omega arith; typed = refl; storable = omega arith },
  (
    record { named = refl; text = refl; short = omega arith; typed = refl; storable = omega arith },
    tt,
  ),
)

decode_batch-encode_batch_example :
    (bs : List ℕ) × (encode_batch batch ≡ ok bs)
    × (length bs < 2 ^ 64 → decode_batch is_ascii schema bs ≡ ok batch)
decode_batch-encode_batch_example =
    decode_batch-encode_batch is_ascii schema batch batch_stored (omega arith) (omega arith)
