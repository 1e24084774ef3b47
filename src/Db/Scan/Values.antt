-- ===== src/Db/Scan/Values.antt =====
-- The values of a column of chunks: one by one, and all of them.
use bypass_io.Prelude.{
  ℕ, zero, suc, ◌-◌, ◌≡◌, refl, sym, ap, ◌∙◌, Bool-cases, inl, inr, List, [], ◌∷◌, ◌++◌, Option,
  none, some, length, get_elem?, arith, ltb, ltb→lt, ◌≤◌, get_elem?-append_left,
  get_elem?-append_right,
}
use bypass_io.Prelude.Predicates.{All}
use bypass_io.Db.Mapped.{MappedColumn}
use bypass_io.Db.Rows.{iter}
use bypass_io.Db.Rows.Order.{index_at-iter}
use bypass_io.Db.Scan.{
  Chunk, owned, mapped, chunk_rows, mapped_values, chunk_values, flatten_chunks, chunk_value,
  value_at,
}

module _ {A : Type 0} (value : MappedColumn → ℕ → Option A) where
  -- Each row that a mapped chunk selects has a value.
  abbrev pub Complete : Chunk A → Type 0
  Complete (owned vs) = Unit
  Complete (mapped s) = All (λ i. (v : A) × (value s.column i ≡ some v)) (iter s.rows)

  mapped_values-Complete :
      (column : MappedColumn) (is : List ℕ) (k : ℕ)
      → All (λ i. (v : A) × (value column i ≡ some v)) is
      → (length (mapped_values value column is) ≡ length is)
        × (get_elem? (mapped_values value column is) k
            ≡ elim (get_elem? is k) [ none ↦ none | some i ↦ value column i ])
  unfolding mapped_values
  mapped_values-Complete column [] k h = (refl, refl)
  mapped_values-Complete column (i ∷ is) zero h =
      (ground (arith, h.0.1, (mapped_values-Complete column is 0 h.1).0), ground (arith, h.0.1))
  mapped_values-Complete column (i ∷ is) (suc k) h =
      let rest = mapped_values-Complete column is k h.1 in
      (ground (arith, h.0.1, rest.0), ground (arith, h.0.1, rest.1))

  pub length-chunk_values :
      (c : Chunk A) → Complete c → length (chunk_values value c) ≡ chunk_rows c
  unfolding chunk_values chunk_rows
  length-chunk_values (owned vs) h = refl
  length-chunk_values (mapped s) h =
      (mapped_values-Complete s.column (iter s.rows) 0 h).0 ∙ (index_at-iter s.rows 0).1

  chunk_value-chunk_values :
      (c : Chunk A) (i : ℕ)
      → Complete c
      → chunk_value value c i ≡ get_elem? (chunk_values value c) i
  unfolding chunk_value chunk_values
  chunk_value-chunk_values (owned vs) i h = refl
  chunk_value-chunk_values (mapped s) i h =
      ground
        (arith, (mapped_values-Complete s.column (iter s.rows) i h).1, (index_at-iter s.rows i).0)

  past :
      (xs ys : List A) (i : ℕ)
      → length xs ≤ i
      → get_elem? ys (i - length xs) ≡ get_elem? (xs ++ ys) i
  past xs ys i h =
      sym (get_elem?-append_right xs ys (i - length xs)) ∙ ap (get_elem? (xs ++ ys)) (omega arith)

  -- Reading a column of chunks at an index reads the list of all its values there, and none past the
  -- end, when each selected row of a mapped chunk has a value.
  pub value_at-flatten_chunks :
      (cs : List (Chunk A)) (i : ℕ)
      → All Complete cs
      → value_at value cs i ≡ get_elem? (flatten_chunks value cs) i
  unfolding value_at flatten_chunks
  value_at-flatten_chunks [] i h = refl
  value_at-flatten_chunks (c ∷ cs) i h =
      let size = length-chunk_values c h.0 in
      elim (Bool-cases (ltb i (chunk_rows c))) [
        | inl e ↦ rw e (
            chunk_value-chunk_values c i h.0
            ∙ sym (
                get_elem?-append_left (chunk_values value c) (flatten_chunks value cs) i
                  (omega (arith, size, ltb→lt i (chunk_rows c) e))))
        | inr e ↦ rw e (
            value_at-flatten_chunks cs (i - chunk_rows c) h.1
            ∙ ap (λ k. get_elem? (flatten_chunks value cs) (i - k)) (sym size)
            ∙ past (chunk_values value c) (flatten_chunks value cs) i (ground (arith, size, e)))
      ]
