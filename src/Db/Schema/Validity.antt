-- ===== src/Db/Schema/Validity.antt =====
-- Which schemas `Schema::new` accepts, and what an accepted schema guarantees.
use bypass_io.Prelude.{
  ℕ, zero, suc, ◌+◌, ◌≡◌, ◌≢◌, refl, sym, ap, subst, ◌∙◌, ◌⊎◌, inl, inr, true, false, List, [], ◌∷◌,
  Option, none, some, Result, ok, ◌>>=◌, ok_or, get_elem?, arith, bytes_eq_iff, Bool-cases,
  >>=-eq-ok,
}
use bypass_io.Db.Schema.{
  Name, DType, timestamp, ColumnDef, Schema, dtype_eq, contains, next_timestamp, check_columns, new,
  missing_timestamp_column, SchemaError,
}

-- What every schema that the store works with satisfies.
pub record IsValid (s : Schema) : Type 0 where
  pub named : s.name ≢ []
  pub nonempty : s.columns ≢ []
  pub distinct :
      (i j : ℕ) (a b : ColumnDef)
      → get_elem? s.columns i ≡ some a
      → get_elem? s.columns j ≡ some b
      → a.name ≡ b.name
      → i ≡ j
  pub stamped :
      (c : ColumnDef) × (get_elem? s.columns s.timestamp_column ≡ some c) × (c.dtype ≡ timestamp)
  pub unique :
      (i : ℕ) (c : ColumnDef)
      → get_elem? s.columns i ≡ some c
      → c.dtype ≡ timestamp
      → i ≡ s.timestamp_column

pub dtype_eq-timestamp : (d : DType) → dtype_eq d timestamp ≡ true → d ≡ timestamp
unfolding dtype_eq
dtype_eq-timestamp d h = ground arith

pub not_stamp : (d : DType) → dtype_eq d timestamp ≡ false → d ≢ timestamp
unfolding dtype_eq
not_stamp d h e = ground arith

contains-cons :
    (ms : List Name) (m n : Name) → contains (m ∷ ms) n ≡ false → (m ≢ n) × (contains ms n ≡ false)
unfolding contains
contains-cons ms m n h = ground (arith, bytes_eq_iff m n)

pub contains-cons_of :
    (ms : List Name) (m n : Name) → m ≢ n → contains ms n ≡ false → contains (m ∷ ms) n ≡ false
unfolding contains
contains-cons_of ms m n ne h = ground (arith, bytes_eq_iff m n)

-- What the loop has established when it ends with `r`.
record Scanned (idx : ℕ) (cs : List ColumnDef) (seen : List Name) (ts r : Option ℕ) : Type 0 where
  fresh : (i : ℕ) (c : ColumnDef) → get_elem? cs i ≡ some c → contains seen c.name ≡ false
  distinct :
      (i j : ℕ) (a b : ColumnDef)
      → get_elem? cs i ≡ some a
      → get_elem? cs j ≡ some b
      → a.name ≡ b.name
      → i ≡ j
  only :
      (i : ℕ) (c : ColumnDef) → get_elem? cs i ≡ some c → c.dtype ≡ timestamp → r ≡ some (idx + i)
  kept : (t : ℕ) → ts ≡ some t → r ≡ some t
  origin :
      (t : ℕ)
      → r ≡ some t
      → (ts ≡ some t)
        ⊎ ((i : ℕ) × (c : ColumnDef) × (t ≡ idx + i)
            × (get_elem? cs i ≡ some c)
            × (c.dtype ≡ timestamp))

next_timestamp-cases :
    (idx : ℕ) (c : ColumnDef) (ts ts' : Option ℕ)
    → next_timestamp idx c ts ≡ ok ts'
    → ((c.dtype ≡ timestamp) × (ts ≡ none) × (ts' ≡ some idx))
      ⊎ ((c.dtype ≢ timestamp) × (ts' ≡ ts))
unfolding next_timestamp
next_timestamp-cases idx c ts ts' e = ground arith

module _ (idx : ℕ) (c : ColumnDef) (cs : List ColumnDef) (seen : List Name) (ts ts' r : Option ℕ)
    (next : next_timestamp idx c ts ≡ ok ts') (s : Scanned (suc idx) cs (c.name ∷ seen) ts' r) where
  names_differ :
      (i : ℕ) (a : ColumnDef)
      → get_elem? cs i ≡ some a
      → (c.name ≢ a.name) × (contains seen a.name ≡ false)
  names_differ i a e = contains-cons seen c.name a.name (s.fresh i a e)

  cons_distinct :
      (i j : ℕ) (a b : ColumnDef)
      → get_elem? (c ∷ cs) i ≡ some a
      → get_elem? (c ∷ cs) j ≡ some b
      → a.name ≡ b.name
      → i ≡ j
  cons_distinct zero zero a b p q e = refl
  cons_distinct zero (suc j) a b p q e = absurd ((names_differ j b q).0 (cc))
  cons_distinct (suc i) zero a b p q e = absurd ((names_differ i a p).0 (cc))
  cons_distinct (suc i) (suc j) a b p q e = ap suc (s.distinct i j a b p q e)

  cons_only :
      (i : ℕ) (a : ColumnDef)
      → get_elem? (c ∷ cs) i ≡ some a
      → a.dtype ≡ timestamp
      → r ≡ some (idx + i)
  cons_only zero a p e = elim (next_timestamp-cases idx c ts ts' next) [
    | inl h ↦ ground (arith, s.kept idx h.2)
    | inr h ↦ absurd (h.0 (cc))
  ]
  cons_only (suc i) a p e = ground (arith, s.only i a p e)

  cons_kept : (t : ℕ) → ts ≡ some t → r ≡ some t
  cons_kept t e = elim (next_timestamp-cases idx c ts ts' next) [
    | inl h ↦ absurd (ground arith)
    | inr h ↦ s.kept t (h.1 ∙ e)
  ]

  cons_origin :
      (t : ℕ)
      → r ≡ some t
      → (ts ≡ some t)
        ⊎ ((i : ℕ) × (a : ColumnDef) × (t ≡ idx + i)
            × (get_elem? (c ∷ cs) i ≡ some a)
            × (a.dtype ≡ timestamp))
  cons_origin t e = elim (s.origin t e) [
    | inr (i, a, t-eq, p, q) ↦ inr (suc i, a, omega arith, p, q)
    | inl e' ↦ elim (next_timestamp-cases idx c ts ts' next) [
      | inl h ↦ inr (zero, c, ground arith, refl, h.0)
      | inr h ↦ inl (sym h.1 ∙ e')
    ]
  ]

  cons_fresh :
      contains seen c.name ≡ false
      → (i : ℕ) (a : ColumnDef) → get_elem? (c ∷ cs) i ≡ some a
      → contains seen a.name ≡ false
  cons_fresh h zero a p = ground arith
  cons_fresh h (suc i) a p = (names_differ i a p).1

  Scanned-cons : contains seen c.name ≡ false → Scanned idx (c ∷ cs) seen ts r
  Scanned-cons h = record {
    fresh = cons_fresh h;
    distinct = cons_distinct;
    only = cons_only;
    kept = cons_kept;
    origin = cons_origin;
  }

check_columns-Scanned :
    (idx : ℕ) (cs : List ColumnDef) (seen : List Name) (ts r : Option ℕ)
    → check_columns idx cs seen ts ≡ ok r
    → Scanned idx cs seen ts r
unfolding check_columns
check_columns-Scanned idx [] seen ts r e = record {
  fresh = λ i c f. cc;
  distinct = λ i j a b f. cc;
  only = λ i c f. cc;
  kept = λ t f. ground arith;
  origin = λ t f. inl (ground arith);
}
check_columns-Scanned idx (c ∷ cs) seen ts r e = elim (Bool-cases (contains seen c.name)) [
  | inl dup ↦ absurd (ground arith)
  | inr ok_name ↦
      let (ts', next, rest) = >>=-eq-ok (next_timestamp idx c ts) _ (rw ok_name at e) in
      Scanned-cons idx c cs seen ts ts' r next
        (check_columns-Scanned (suc idx) cs (c.name ∷ seen) ts' r rest) ok_name
]

abbrev pub made : Name → List ColumnDef → ℕ → Schema
made name cs ts = record { name = name; columns = cs; timestamp_column = ts }

Scanned-IsValid :
    (name : Name) (cs : List ColumnDef) (ts : ℕ)
    → name ≢ []
    → cs ≢ []
    → Scanned 0 cs [] none (some ts)
    → IsValid (made name cs ts)
Scanned-IsValid name cs ts hn hc sc = record {
  named = hn;
  nonempty = hc;
  distinct = sc.distinct;
  stamped = elim (sc.origin ts refl) [
    | inl e ↦ absurd (cc e)
    | inr (i, c, t-eq, p, q) ↦ (c, ap (get_elem? cs) (omega arith) ∙ p, q)
  ];
  unique = λ i c p q. ground (arith, sc.only i c p q);
}

finish : List ColumnDef → Name → Option ℕ → Result SchemaError Schema
finish cs name found = ok_or found missing_timestamp_column >>= λ ts. ok (made name cs ts)

finish-IsValid :
    (name : Name) (cs : List ColumnDef) (found : Option ℕ) (s : Schema)
    → name ≢ []
    → cs ≢ []
    → Scanned 0 cs [] none found
    → finish cs name found ≡ ok s
    → (s.name ≡ name) × (s.columns ≡ cs) × IsValid s
unfolding finish
finish-IsValid name cs none s hn hc sc e = absurd (cc)
finish-IsValid name cs (some ts) s hn hc sc e =
    let same : made name cs ts ≡ s = cc in
    (cc, cc, subst IsValid same (Scanned-IsValid name cs ts hn hc sc))

-- An accepted schema has the name and columns that were given, distinct column names, and exactly
-- one timestamp column, which is the one that it records.
pub new-IsValid :
    (name : Name) (columns : List ColumnDef) (s : Schema)
    → new name columns ≡ ok s
    → (s.name ≡ name) × (s.columns ≡ columns) × IsValid s
unfolding new finish
new-IsValid [] columns s e = absurd (cc)
new-IsValid (n ∷ name) [] s e = absurd (cc)
new-IsValid (n ∷ name) (c ∷ cs) s e =
    let (found, scan, rest) =
      >>=-eq-ok (check_columns 0 (c ∷ cs) [] none) (finish (c ∷ cs) (n ∷ name)) e in
    finish-IsValid (n ∷ name) (c ∷ cs) found s (λ p. cc) (λ p. cc)
      (check_columns-Scanned 0 (c ∷ cs) [] none found scan) rest
