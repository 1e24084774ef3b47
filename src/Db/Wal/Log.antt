-- ===== src/Db/Wal/Log.antt =====
-- `WalReader::records` over a whole file.
use bypass_io.Prelude.{
  ℕ, zero, suc, ◌+◌, ◌≤◌, ◌<◌, ◌≡◌, ◌≢◌, refl, ◌⊎◌, inl, inr, List, [], ◌∷◌, ◌++◌, append_assoc,
  Option, none, some, Result, ok, err, length, take, drop, from_le_bytes, arith, Option-cases,
}
use bypass_io.Prelude.Predicates.{All}
use bypass_io.Db.Wal.{
  WalRecord, WalError, header_len, trailer_len, read_exact, decode_body, decode_from, records_loop,
  records,
}
use bypass_io.Db.Wal.Codec.{IsRecord, record_bytes, decode_from-record_bytes}

-- A log without faults: its records' bytes, one after another.
unfoldable pub log_bytes : List WalRecord → List ℕ
log_bytes [] = []
log_bytes (r ∷ rs) = record_bytes r ++ log_bytes rs

pub read_exact-length :
    (n : ℕ) (bs got rest : List ℕ)
    → read_exact n bs ≡ some (got, rest)
    → (length bs ≡ n + length rest) × (got ≡ take n bs)
unfolding read_exact
read_exact-length zero bs got rest e = (ground arith, cc)
read_exact-length (suc n) [] got rest e = absurd (cc)
read_exact-length (suc n) (b ∷ bs) got rest e = elim (Option-cases (read_exact n bs)) [
  | inl p ↦ absurd (ground arith)
  | inr ((g, r), p) ↦ ground (arith, read_exact-length n bs g r p)
]

decode_body_shorter :
    (header bs : List ℕ) (r : WalRecord) (rest : List ℕ)
    → decode_body header bs ≡ ok (some (r, rest))
    → length rest ≤ length bs
unfolding decode_body
decode_body_shorter header bs r rest e = elim (Option-cases (read_exact len bs)) [
  | inl p ↦ absurd (ground arith)
  | inr ((payload, rest₁), p) ↦ elim (Option-cases (read_exact trailer_len rest₁)) [
    | inl q ↦ absurd (ground arith)
    | inr ((trailer, rest₂), q) ↦ ground (
      arith,
      read_exact-length len bs payload rest₁ p,
      read_exact-length trailer_len rest₁ trailer rest₂ q,
    )
  ]
]
  where
    len : ℕ
    len = from_le_bytes (take 4 (drop 12 header))

-- A record that is read is behind the reader.
decode_from_shorter :
    (bs : List ℕ) (r : WalRecord) (rest : List ℕ)
    → decode_from bs ≡ ok (some (r, rest))
    → length rest < length bs
unfolding decode_from
decode_from_shorter bs r rest e = elim (Option-cases (read_exact header_len bs)) [
  | inl p ↦ absurd (ground arith)
  | inr ((h, t), p) ↦
      ground (arith, read_exact-length header_len bs h t p, decode_body_shorter h t r rest)
]

decoded-cases :
    {A : Type 0} (d : Result WalError (Option A))
    → ((e : WalError) × (d ≡ err e)) ⊎ ((d ≡ ok none) ⊎ ((a : A) × (d ≡ ok (some a))))
decoded-cases (err e) = inl (e, refl)
decoded-cases (ok none) = inr (inl refl)
decoded-cases (ok (some a)) = inr (inr (a, refl))

records_loop-ne-none : (fuel : ℕ) (bs : List ℕ) → length bs < fuel → records_loop fuel bs ≢ none
unfolding records_loop
records_loop-ne-none zero bs h p = absurd (omega arith)
records_loop-ne-none (suc fuel) bs h p = elim (decoded-cases (decode_from bs)) [
  | inl (e, d) ↦ ground arith
  | inr (inl d) ↦ ground arith
  | inr (inr ((r, rest), d)) ↦
      ground
        (arith, records_loop-ne-none fuel rest (omega (arith, decode_from_shorter bs r rest d)))
]

-- Reading a file ends, whatever its bytes.
pub records_total :
    (bs : List ℕ) → (res : Result WalError (List WalRecord)) × (records bs ≡ some res)
unfolding records
records_total bs = elim (Option-cases (records_loop (suc (length bs)) bs)) [
  | inl p ↦ absurd (records_loop-ne-none (suc (length bs)) bs (omega arith) p)
  | inr found ↦ found
]

-- A log followed by bytes that end the scan, with or without an error.
module _ (tail : List ℕ) where
  unfoldable pub after_log :
      List WalRecord → Result WalError (List WalRecord) → Result WalError (List WalRecord)
  after_log rs (ok more) = ok (rs ++ more)
  after_log rs (err e) = err e

  pub records_loop-log :
      (rs : List WalRecord) (fuel : ℕ) (stop : Result WalError (List WalRecord))
      → All IsRecord rs
      → ((f : ℕ) → records_loop (suc f) tail ≡ some stop)
      → length rs < fuel
      → records_loop fuel (log_bytes rs ++ tail) ≡ some (after_log rs stop)
  unfolding records_loop log_bytes after_log
  records_loop-log rs zero stop h ends lt = absurd (omega arith)
  records_loop-log [] (suc fuel) (ok more) h ends lt = ends fuel
  records_loop-log [] (suc fuel) (err e) h ends lt = ends fuel
  records_loop-log (r ∷ rs) (suc fuel) stop h ends lt = rw append_assoc (
      ground (
        arith,
        decode_from-record_bytes r (log_bytes rs ++ tail) h.0,
        records_loop-log rs fuel stop h.1 ends (omega arith),
      ))
