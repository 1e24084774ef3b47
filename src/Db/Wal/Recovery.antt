-- ===== src/Db/Wal/Recovery.antt =====
-- What a reader finds in a log that a crash, or a failed write, has left behind.
use bypass_io.Prelude.{
  ℕ, zero, suc, ◌+◌, ◌≤◌, ◌<◌, ◌≡◌, refl, ap, ◌∙◌, inl, inr, false, List, [], ◌∷◌, ◌++◌, append-nil,
  none, some, Result, ok, err, length, length-append, take, arith, bytes_eq, bytes_eq_refl,
  Option-cases,
}
use bypass_io.Prelude.Predicates.{All}
use bypass_io.Db.Wal.{
  WalRecord, WalError, io, wal_magic, header_len, trailer_len, read_exact, decode_body, decode_from,
  records_loop, records,
}
use bypass_io.Db.Wal.Codec.{
  IsRecord, record_bytes, header_bytes, length-header_bytes, read_exact-append, read_exact_short,
  header_magic, header_len_field,
}
use bypass_io.Db.Wal.Log.{log_bytes, read_exact-length, records_loop-log, after_log}

length-log_bytes : (rs : List WalRecord) → length rs ≤ length (log_bytes rs)
unfolding log_bytes record_bytes header_bytes
length-log_bytes [] = omega arith
length-log_bytes (r ∷ rs) =
    omega (arith, length-append (record_bytes r) (log_bytes rs), length-log_bytes rs)

-- The scan of a log goes through its records, and ends as the bytes behind them do.
records-log :
    (rs : List WalRecord) (tail : List ℕ) (stop : Result WalError (List WalRecord))
    → All IsRecord rs
    → ((f : ℕ) → records_loop (suc f) tail ≡ some stop)
    → records (log_bytes rs ++ tail) ≡ some (after_log tail rs stop)
unfolding records
records-log rs tail stop h ends =
    records_loop-log tail rs (suc (length (log_bytes rs ++ tail))) stop h ends
      (omega (arith, length-append (log_bytes rs) tail, length-log_bytes rs))

-- The records of a log are read back in order, and a header that was cut off behind them ends the
-- scan without an error.
pub records_torn_header :
    (rs : List WalRecord) (torn : List ℕ)
    → All IsRecord rs
    → length torn < header_len
    → records (log_bytes rs ++ torn) ≡ some (ok rs)
unfolding records_loop decode_from after_log
records_torn_header rs torn h short =
    records-log rs torn (ok []) h (λ f. ground (arith, read_exact_short header_len torn short))
    ∙ ap (λ (l : List WalRecord). some (ok l)) (append-nil rs)

decode_body_short :
    (r : WalRecord) (left : List ℕ)
    → IsRecord r
    → length left < length r.payload + trailer_len
    → decode_body (header_bytes r) left ≡ err io
unfolding decode_body
decode_body_short r left h short =
    rw (header_len_field r h) (elim (Option-cases (read_exact (length r.payload) left)) [
      | inl p ↦ rw p
      | inr ((payload, rest), p) ↦ ground (
        arith,
        read_exact_short trailer_len rest
            (omega (arith, read_exact-length (length r.payload) left payload rest p)),
      )
    ])

-- A record that was cut off behind its header is an error of the whole scan: the records before it
-- are not returned.
pub records_torn_record :
    (rs : List WalRecord) (r : WalRecord) (left : List ℕ)
    → All IsRecord rs
    → IsRecord r
    → length left < length r.payload + trailer_len
    → records (log_bytes rs ++ (header_bytes r ++ left)) ≡ some (err io)
unfolding records_loop decode_from after_log
records_torn_record rs r left h hr short = records-log rs (header_bytes r ++ left) (err io) h (λ f.
    ground (
      arith,
      read_exact-append header_len (header_bytes r) left (length-header_bytes r),
      header_magic r,
      bytes_eq_refl wal_magic,
      decode_body_short r left hr short,
    ))

take-take : (n m : ℕ) (xs : List ℕ) → n ≤ m → take n (take m xs) ≡ take n xs
take-take zero m xs h = refl
take-take (suc n) zero xs h = absurd (omega arith)
take-take (suc n) (suc m) [] h = refl
take-take (suc n) (suc m) (x ∷ xs) h = ap (λ l. x ∷ l) (take-take n m xs (omega arith))

decode_from_bad_magic :
    (bs : List ℕ) → bytes_eq (take 4 bs) wal_magic ≡ false → decode_from bs ≡ ok none
unfolding decode_from
decode_from_bad_magic bs bad = elim (Option-cases (read_exact header_len bs)) [
  | inl p ↦ rw (decode_from, p)
  | inr ((header, rest), p) ↦ ground (
    arith,
    ap (take 4) (read_exact-length header_len bs header rest p).1,
    take-take 4 header_len bs (omega arith),
  )
]

cut_magic :
    (k : ℕ) (r : WalRecord) (more : List ℕ)
    → 0 < k
    → k < 4
    → bytes_eq (take 4 (take k wal_magic ++ (record_bytes r ++ more))) wal_magic ≡ false
unfolding record_bytes header_bytes bytes_eq
cut_magic zero r more p q = absurd (omega arith)
cut_magic (suc zero) r more p q = refl
cut_magic (suc (suc zero)) r more p q = refl
cut_magic (suc (suc (suc zero))) r more p q = refl
cut_magic (suc (suc (suc (suc k)))) r more p q = absurd (omega arith)

-- After a write that failed within the magic bytes, a record that is written completely behind the
-- cut is never read: the scan ends before it, and reports no error.
pub records_lost_after_cut :
    (rs : List WalRecord) (k : ℕ) (r : WalRecord) (more : List ℕ)
    → All IsRecord rs
    → 0 < k
    → k < 4
    → records (log_bytes rs ++ (take k wal_magic ++ (record_bytes r ++ more))) ≡ some (ok rs)
unfolding records_loop after_log
records_lost_after_cut rs k r more h p q =
    records-log rs _ (ok []) h (λ f. ground (
      arith,
      decode_from_bad_magic (take k wal_magic ++ (record_bytes r ++ more)) (cut_magic k r more p q),
    ))
    ∙ ap (λ (l : List WalRecord). some (ok l)) (append-nil rs)
