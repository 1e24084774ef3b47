-- ===== src/Db/Schema/Complete.antt =====
-- `Schema::new` accepts every valid schema.
use bypass_io.Prelude.{
  ℕ, zero, suc, ◌+◌, ◌≡◌, ◌≢◌, refl, sym, ap, ◌∙◌, ◌⊎◌, inl, inr, false, List, [], ◌∷◌, Option,
  none, some, ok, get_elem?, arith, Bool-cases,
}
use bypass_io.Db.Schema.{
  Name, timestamp, ColumnDef, Schema, dtype_eq, contains, next_timestamp, check_columns, new,
}
use bypass_io.Db.Schema.Validity.{IsValid, dtype_eq-timestamp, not_stamp, contains-cons_of, made}

-- What the loop needs in order to end with `r`.
record Fit (idx : ℕ) (cs : List ColumnDef) (seen : List Name) (ts r : Option ℕ) : Type 0 where
  fresh : (i : ℕ) (c : ColumnDef) → get_elem? cs i ≡ some c → contains seen c.name ≡ false
  distinct :
      (i j : ℕ) (a b : ColumnDef)
      → get_elem? cs i ≡ some a
      → get_elem? cs j ≡ some b
      → a.name ≡ b.name
      → i ≡ j
  timed :
      (i : ℕ) (c : ColumnDef)
      → get_elem? cs i ≡ some c
      → c.dtype ≡ timestamp
      → (ts ≡ none) × (r ≡ some (idx + i))
  ending :
      (r ≡ ts) ⊎ ((i : ℕ) × (c : ColumnDef) × (get_elem? cs i ≡ some c) × (c.dtype ≡ timestamp))

module _ (idx : ℕ) (c : ColumnDef) (cs : List ColumnDef) (seen : List Name) (ts r : Option ℕ)
    (h : Fit idx (c ∷ cs) seen ts r) where
  later_fresh :
      (i : ℕ) (a : ColumnDef) → get_elem? cs i ≡ some a → contains (c.name ∷ seen) a.name ≡ false
  later_fresh i a p =
      contains-cons_of seen c.name a.name
        (λ e. absurd (omega (arith, h.distinct zero (suc i) c a refl p e))) (h.fresh (suc i) a p)

  later_distinct :
      (i j : ℕ) (a b : ColumnDef)
      → get_elem? cs i ≡ some a
      → get_elem? cs j ≡ some b
      → a.name ≡ b.name
      → i ≡ j
  later_distinct i j a b p q e = omega (arith, h.distinct (suc i) (suc j) a b p q e)

  Fit-stamp :
      c.dtype ≡ timestamp
      → (next_timestamp idx c ts ≡ ok (some idx)) × Fit (suc idx) cs (c.name ∷ seen) (some idx) r
  unfolding next_timestamp
  Fit-stamp e = (
    ground (arith, h.timed 0 c refl e),
    record {
      fresh = later_fresh;
      distinct = later_distinct;
      timed = λ i a p q. absurd (ground (arith, h.timed 0 c refl e, h.timed (suc i) a p q));
      ending = inl (ground (arith, h.timed 0 c refl e));
    },
  )

  Fit-plain :
      c.dtype ≢ timestamp
      → (next_timestamp idx c ts ≡ ok ts) × Fit (suc idx) cs (c.name ∷ seen) ts r
  unfolding next_timestamp
  Fit-plain ne = (
    ground arith,
    record {
      fresh = later_fresh;
      distinct = later_distinct;
      timed = λ i a p q. ground (arith, h.timed (suc i) a p q);
      ending = elim h.ending [
        | inl e ↦ inl e
        | inr (zero, a, p, q) ↦ absurd (ne (cc))
        | inr (suc i, a, p, q) ↦ inr (i, a, p, q)
      ];
    },
  )

Fit-check_columns :
    (idx : ℕ) (cs : List ColumnDef) (seen : List Name) (ts r : Option ℕ)
    → Fit idx cs seen ts r
    → check_columns idx cs seen ts ≡ ok r
unfolding check_columns
Fit-check_columns idx [] seen ts r h = elim h.ending [
  | inl e ↦ ap ok (sym e)
  | inr (i, c, p, q) ↦ absurd (cc)
]
Fit-check_columns idx (c ∷ cs) seen ts r h = elim (Bool-cases (dtype_eq c.dtype timestamp)) [
  | inl e ↦
      let (step, h') = Fit-stamp idx c cs seen ts r h (dtype_eq-timestamp c.dtype e) in
      ground (
        arith,
        h.fresh 0 c refl,
        step,
        Fit-check_columns (suc idx) cs (c.name ∷ seen) (some idx) r h',
      )
  | inr e ↦
      let (step, h') = Fit-plain idx c cs seen ts r h (λ p. not_stamp c.dtype e p) in
      ground (arith, h.fresh 0 c refl, step, Fit-check_columns (suc idx) cs (c.name ∷ seen) ts r h')
]

accept :
    (name : Name) (cs : List ColumnDef) (ts : ℕ)
    → name ≢ []
    → cs ≢ []
    → check_columns 0 cs [] none ≡ ok (some ts)
    → new name cs ≡ ok (made name cs ts)
unfolding new
accept [] cs ts hn hc e = absurd (hn refl)
accept (n ∷ name) [] ts hn hc e = absurd (hc refl)
accept (n ∷ name) (c ∷ cs) ts hn hc e = rw e

-- Every valid schema is accepted as it is, so the rules that `new` enforces are exactly `IsValid`.
pub new_complete : (s : Schema) → IsValid s → new s.name s.columns ≡ ok s
new_complete s v = accept s.name s.columns s.timestamp_column v.named v.nonempty (
    Fit-check_columns 0 s.columns [] none (some s.timestamp_column) (record {
      fresh = λ i c p. unfold contains in refl;
      distinct = v.distinct;
      timed = λ i c p q. (refl, ap some (sym (v.unique i c p q) ∙ omega arith));
      ending = inr (s.timestamp_column, v.stamped.0, v.stamped.1, v.stamped.2);
    }))
