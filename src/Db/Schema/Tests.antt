-- ===== src/Db/Schema/Tests.antt =====
-- Tests of schema.rs, and the theorems about it at a concrete schema.
use bypass_io.Prelude.{◌≡◌, refl, [], ◌∷◌, some, ok, err, bytes_eq}
use bypass_io.Db.Schema.{
  ColumnDef, timestamp, f64, Schema, new, duplicate_column, missing_timestamp_column,
  multiple_timestamp_columns, column_index,
}
use bypass_io.Db.Schema.Validity.{IsValid, new-IsValid}
use bypass_io.Db.Schema.Complete.{new_complete}

abbrev ts : ColumnDef
ts = record { name = b't' ∷ []; dtype = timestamp }

abbrev price : ColumnDef
price = record { name = b'p' ∷ []; dtype = f64 }

abbrev ticks : Schema
ticks = record { name = b'x' ∷ []; columns = price ∷ ts ∷ []; timestamp_column = 1 }

new_runs : new (b'x' ∷ []) (price ∷ ts ∷ []) ≡ ok ticks
unfolding new bytes_eq
new_runs = refl

-- `schema_requires_exactly_one_timestamp_column`
needs_timestamp :
    (new (b'x' ∷ []) (price ∷ []) ≡ err missing_timestamp_column)
    × (new (b'x' ∷ []) (ts ∷ record ts { name = b'o' ∷ [] } ∷ []) ≡ err multiple_timestamp_columns)
unfolding new bytes_eq
needs_timestamp = (refl, refl)

-- `schema_rejects_duplicate_columns`
rejects_duplicates :
    new (b'x' ∷ []) (ts ∷ record ts { dtype = f64 } ∷ []) ≡ err (duplicate_column (b't' ∷ []))
unfolding new bytes_eq
rejects_duplicates = refl

index_of_ts : column_index ticks (b't' ∷ []) ≡ some 1
unfolding column_index bytes_eq
index_of_ts = refl

ticks-IsValid : IsValid ticks
ticks-IsValid = (new-IsValid (b'x' ∷ []) (price ∷ ts ∷ []) ticks new_runs).2

new-IsValid_example : (ticks.name ≡ b'x' ∷ []) × (ticks.columns ≡ price ∷ ts ∷ []) × IsValid ticks
new-IsValid_example = new-IsValid (b'x' ∷ []) (price ∷ ts ∷ []) ticks new_runs

new_complete_example : new ticks.name ticks.columns ≡ ok ticks
new_complete_example = new_complete ticks ticks-IsValid
