-- ===== src/Db/Payload/RoundTrip.antt =====
-- `decode_batch` gives back the batch that `encode_batch` wrote.
use bypass_io.Prelude.{
  ℕ, suc, ◌^◌, ◌<◌, ==_iff, ◌≡◌, refl, sym, ap, ◌∙◌, subst, Bool, true, List, [], ◌∷◌, ◌++◌,
  append_assoc, append-nil, ok, length, arith, lt→ltb, bytes_eq_refl, to_le_bytes,
}
use bypass_io.Prelude.Predicates.{All}
use bypass_io.Db.Schema.{Name, ColumnDef, Schema}
use bypass_io.Db.Batch.{
  ColumnData, f64_data, i64_data, timestamp_data, fixed_str_data, Columns, RowBatch, matches_dtype,
}
use bypass_io.Db.Payload.{
  PayloadReader, read_u8, read_usize, read_bytes, read_words, read_strings, read_numeric,
  decode_data, decode_column, decode_columns, decode_batch, encode_data, encode_columns,
  encode_batch, write_usize, write_words, write_bytes, finish,
}
use bypass_io.Db.Payload.Reads.{
  Remains, Reads, Reads-pure, Reads-bind, Reads-bind-pure, Reads-require, Reads-u8, Reads-usize,
  Reads-bytes, Reads-words, Reads-strings,
}

-- The values of a column are words, and its sizes fit the fields of the format.
abbrev pub Storable : ColumnData → Type 0
Storable (f64_data vs) = (length vs < 2 ^ 64) × All (λ v. v < 2 ^ 64) vs
Storable (i64_data vs) = (length vs < 2 ^ 64) × All (λ v. v < 2 ^ 64) vs
Storable (timestamp_data vs) = (length vs < 2 ^ 64) × All (λ v. v < 2 ^ 64) vs
Storable (fixed_str_data w vs) =
    (w < 2 ^ 64) × (length vs < 2 ^ 64) × All (λ v. length v < 2 ^ 32) vs

Reads-numeric :
    (con : List ℕ → ColumnData) (vs : List ℕ)
    → (length vs < 2 ^ 64) × All (λ v. v < 2 ^ 64) vs
    → Reads (read_numeric con) (write_usize (length vs) ++ write_words vs) (con vs)
unfolding read_numeric
Reads-numeric con vs h =
    Reads-bind read_usize _ (write_usize (length vs)) (write_words vs) (length vs) (con vs)
      (Reads-usize (length vs) h.0)
      (Reads-bind-pure (read_words (length vs)) con (write_words vs) vs (Reads-words vs h.1))

-- A column's data is written behind a tag, and read back by it.
Reads-data :
    (d : ColumnData)
    → Storable d
    → (tag : ℕ) × (bs : List ℕ) × (encode_data d ≡ ok (tag ∷ bs)) × Reads (decode_data tag) bs d
unfolding encode_data decode_data
Reads-data (f64_data vs) h =
    (0, write_usize (length vs) ++ write_words vs, refl, Reads-numeric f64_data vs h)
Reads-data (i64_data vs) h =
    (1, write_usize (length vs) ++ write_words vs, refl, Reads-numeric i64_data vs h)
Reads-data (timestamp_data vs) h =
    (2, write_usize (length vs) ++ write_words vs, refl, Reads-numeric timestamp_data vs h)
Reads-data (fixed_str_data w vs) h =
    let (bs, written, reads) = Reads-strings vs h.2 in
    (
      3,
      write_usize w ++ (write_usize (length vs) ++ bs),
      ground (arith, written),
      Reads-bind read_usize _ (write_usize w) (write_usize (length vs) ++ bs) w
          (fixed_str_data w vs) (Reads-usize w h.0)
          (Reads-bind read_usize _ (write_usize (length vs)) bs (length vs) (fixed_str_data w vs)
            (Reads-usize (length vs) h.1)
            (Reads-bind-pure (read_strings (length vs)) (fixed_str_data w) bs vs reads)),
    )

module _ (is_utf8 : List ℕ → Bool) where
  -- A column that can be stored under the definition `c`.
  pub record Stored (c : ColumnDef) (name : Name) (d : ColumnData) : Type 0 where
    pub named : name ≡ c.name
    pub text : is_utf8 name ≡ true
    pub short : length name < 2 ^ 32
    pub typed : matches_dtype d c.dtype ≡ true
    pub storable : Storable d

  abbrev pub StoredAll : List ColumnDef → Columns → Type 0
  StoredAll [] [] = Unit
  StoredAll [] (x ∷ cols) = ⊥
  StoredAll (c ∷ cs) [] = ⊥
  StoredAll (c ∷ cs) ((name, d) ∷ cols) = Stored c name d × StoredAll cs cols

  Reads-column :
      (c : ColumnDef) (name : Name) (d : ColumnData) (rest : Columns) (tail : List ℕ)
      → Stored c name d
      → encode_columns rest ≡ ok tail
      → (bs : List ℕ) × (encode_columns ((name, d) ∷ rest) ≡ ok (bs ++ tail))
        × Reads (decode_column is_utf8 c) bs (name, d)
  unfolding encode_columns decode_column write_bytes
  Reads-column c name d rest tail h e =
      let (tag, bs, written, reads) = Reads-data d h.storable in
      (
        (to_le_bytes 4 (length name) ++ name) ++ (tag ∷ bs),
        ground (
          arith,
          written,
          lt→ltb (length name) (2 ^ 32) h.short,
          append_assoc (to_le_bytes 4 (length name) ++ name) (tag ∷ bs) tail,
        ),
        Reads-bind read_bytes _ (to_le_bytes 4 (length name) ++ name) (tag ∷ bs) name (name, d)
            (Reads-bytes name h.short)
            (Reads-require _ _ _ _ _ h.text (
              Reads-require _ _ _ _ _ (rw h.named (bytes_eq_refl c.name)) (
                Reads-bind read_u8 _ (tag ∷ []) bs tag (name, d) (Reads-u8 tag)
                  (rw (← append-nil bs) (
                    Reads-bind (decode_data tag) _ bs [] d (name, d) reads
                      (Reads-require _ _ _ _ _ h.typed (Reads-pure (name, d)))))))),
      )

  Reads-columns :
      (cs : List ColumnDef) (cols : Columns)
      → StoredAll cs cols
      → (bs : List ℕ) × (encode_columns cols ≡ ok bs) × Reads (decode_columns is_utf8 cs) bs cols
  unfolding decode_columns
  Reads-columns [] [] h = ([], unfold encode_columns in refl, Reads-pure [])
  Reads-columns [] (x ∷ cols) h = absurd h
  Reads-columns (c ∷ cs) [] h = absurd h
  Reads-columns (c ∷ cs) ((name, d) ∷ cols) h =
      let (tail, encoded, rest) = Reads-columns cs cols h.1 in
      let (bs, written, reads) = Reads-column c name d cols tail h.0 encoded in
      (
        bs ++ tail,
        written,
        Reads-bind (decode_column is_utf8 c) _ bs tail (name, d) ((name, d) ∷ cols) reads
            (Reads-bind-pure (decode_columns is_utf8 cs) (λ l. (name, d) ∷ l) tail cols rest),
      )

  length-StoredAll :
      (cs : List ColumnDef) (cols : Columns) → StoredAll cs cols → length cols ≡ length cs
  length-StoredAll [] [] h = refl
  length-StoredAll [] (x ∷ cols) h = absurd h
  length-StoredAll (c ∷ cs) [] h = absurd h
  length-StoredAll (c ∷ cs) (x ∷ cols) h = ap suc (length-StoredAll cs cols h.1)

  finish-Remains : (r : PayloadReader) → Remains [] r → finish r ≡ ok (tt, r)
  unfolding finish
  finish-Remains r h = rw (
      (==_iff r.offset (length r.input)).1 (h.at ∙ ap length (sym (h.whole ∙ append-nil h.passed))))

  -- A batch whose columns can be stored under the schema is encoded, and its payload is decoded to
  -- the same batch.
  pub decode_batch-encode_batch :
      (s : Schema) (rows : RowBatch)
      → StoredAll s.columns rows.columns
      → rows.row_count < 2 ^ 64
      → length rows.columns < 2 ^ 64
      → (bs : List ℕ) × (encode_batch rows ≡ ok bs)
        × (length bs < 2 ^ 64 → decode_batch is_utf8 s bs ≡ ok rows)
  unfolding encode_batch decode_batch
  decode_batch-encode_batch s rows h counted narrow =
      let (cols, encoded, reads) = Reads-columns s.columns rows.columns h in
      (
        write_usize rows.row_count ++ (write_usize (length rows.columns) ++ cols),
        ground (arith, encoded),
        λ small. decoded cols reads small,
      )
    where
      decoded :
          (cols : List ℕ)
          → Reads (decode_columns is_utf8 s.columns) cols rows.columns
          → length (write_usize rows.row_count ++ (write_usize (length rows.columns) ++ cols))
            < 2 ^ 64
          → decode_batch is_utf8 s
              (write_usize rows.row_count ++ (write_usize (length rows.columns) ++ cols))
            ≡ ok rows
      decoded cols reads small =
          let payload = write_usize rows.row_count ++ (write_usize (length rows.columns) ++ cols) in
          let (r₁, e₁, h₁) =
            (Reads-usize rows.row_count counted).run (write_usize (length rows.columns) ++ cols)
              (record { input = payload; offset = 0 })
              (record { passed = []; whole = refl; at = refl; small = small }) in
          let (r₂, e₂, h₂) = (Reads-usize (length rows.columns) narrow).run cols r₁ h₁ in
          let (r₃, e₃, h₃) =
            reads.run [] r₂ (subst (λ l. Remains l r₂) (sym (append-nil cols)) h₂) in
          ground
            (arith, e₁, e₂, e₃, finish-Remains r₃ h₃, length-StoredAll s.columns rows.columns h)
