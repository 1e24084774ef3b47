-- ===== src/Db/Wal/Restart.antt =====
-- What a log of bypass-db/src/wal.rs is opened as after a write to it has failed.
use native.Mathlib.Decide.{dec_le}
use bypass_io.Prelude.{
  ℕ, ◌+◌, ◌-◌, ◌^◌, ◌≤◌, ◌<◌, ◌≡◌, refl, sym, ap, ◌∙◌, ◌⊎◌, inl, inr, List, [], ◌∷◌, ◌++◌,
  append-nil, some, ok, err, length, length-append, length-take, take, take_of_le,
  take-append_of_le, arith,
}
use bypass_io.Prelude.Predicates.{All, All-append}
use bypass_io.Db.Wal.{
  WalRecord, io, records, WalWriter, open_writer, failed, append, header_len, trailer_len,
}
use bypass_io.Db.Wal.Codec.{
  IsRecord, header_bytes, trailer_bytes, record_bytes, length-header_bytes, length-trailer_bytes,
}
use bypass_io.Db.Wal.Log.{log_bytes}
use bypass_io.Db.Wal.Recovery.{records_torn_header, records_torn_record}
use bypass_io.Db.Wal.Writer.{Logs, new_record, log_bytes-snoc, append_failed}

-- The log of these records, then the first `k` bytes of another one.
abbrev cut : List WalRecord → WalRecord → ℕ → List ℕ
cut rs r k = log_bytes rs ++ take k (record_bytes r)

length-record_bytes :
    (r : WalRecord) → length (record_bytes r) ≡ header_len + length r.payload + trailer_len
unfolding record_bytes
length-record_bytes r = omega (
  arith,
  length-append (header_bytes r) (r.payload ++ trailer_bytes r),
  length-append r.payload (trailer_bytes r),
  length-header_bytes r,
  length-trailer_bytes r,
)

cut_in_header :
    (rs : List WalRecord) (r : WalRecord) (k : ℕ)
    → All IsRecord rs
    → k < header_len
    → records (cut rs r k) ≡ some (ok rs)
cut_in_header rs r k h short =
    records_torn_header rs (take k (record_bytes r)) h
      (omega (arith, length-take k (record_bytes r)))

cut_in_record :
    (rs : List WalRecord) (r : WalRecord) (k : ℕ)
    → All IsRecord rs
    → IsRecord r
    → header_len ≤ k
    → k < header_len + length r.payload + trailer_len
    → records (cut rs r k) ≡ some (err io)
unfolding record_bytes
cut_in_record rs r k h hr long short =
    let sized = length-header_bytes r in
    let rest = r.payload ++ trailer_bytes r in
    let left = take (k - length (header_bytes r)) rest in
    let split : take k (record_bytes r) ≡ header_bytes r ++ left =
      take-append_of_le k (header_bytes r) rest (omega (arith, sized)) in
    ap (λ bs. records (log_bytes rs ++ bs)) split
    ∙ records_torn_record rs r left h hr
        (omega (arith, sized, length-take (k - length (header_bytes r)) rest))

cut_behind :
    (rs : List WalRecord) (r : WalRecord) (k : ℕ)
    → All IsRecord rs
    → IsRecord r
    → header_len + length r.payload + trailer_len ≤ k
    → records (cut rs r k) ≡ some (ok (rs ++ (r ∷ [])))
cut_behind rs r k h hr long =
    let whole = take_of_le k (record_bytes r) (omega (arith, length-record_bytes r)) in
    ap records (
      ap (λ bs. log_bytes rs ++ bs) whole
      ∙ sym (log_bytes-snoc rs r)
      ∙ sym (append-nil (log_bytes (rs ++ (r ∷ [])))))
    ∙ records_torn_header (rs ++ (r ∷ [])) [] (All-append IsRecord rs (r ∷ []) h (hr, tt))
        (omega arith)

-- On a writer whose file is the log of these records, with a payload whose length and a next number
-- that fit their words: a write that fails is reported and uses up a number, and a restart on the
-- file depends on how much of the record was written. When less than the header was, the log opens
-- with the records before, and numbers from where the failed call began; when the record is cut off
-- behind its header, the log does not open; when all of it was written, the log opens with the
-- record that the failed call reported as an error.
pub open_writer_failed :
    (k : ℕ) (w : WalWriter) (rs : List WalRecord) (payload : List ℕ)
    → Logs w rs
    → length payload < 2 ^ 32
    → length rs + 1 < 2 ^ 64
    → (w' : WalWriter) × (append (failed k) w payload ≡ (err io, w'))
      × (w'.next_seq_no ≡ length rs + 1)
      × (((k < header_len)
            × (records w'.file ≡ some (ok rs))
            × (open_writer w'.file ≡ some (ok (record w' { next_seq_no = length rs }))))
          ⊎ ((header_len ≤ k)
              × (k < header_len + length payload + trailer_len)
              × (open_writer w'.file ≡ some (err io)))
          ⊎ ((header_len + length payload + trailer_len ≤ k)
              × (records w'.file ≡ some (ok (rs ++ (new_record w payload ∷ []))))
              × (open_writer w'.file ≡ some (ok w'))))
unfolding open_writer
open_writer_failed k w rs payload h small room =
    let r = new_record w payload in
    let fits : IsRecord r = record { seq_word = omega (arith, h.next); len_word = small } in
    (
      record { file = cut rs r k; next_seq_no = length rs + 1 },
      append_failed k w rs payload h small room,
      refl,
      elim (dec_le header_len k) [
        | no short ↦
            let back = cut_in_header rs r k h.fit (omega arith) in
            inl (omega arith, back, ground (arith, back))
        | yes long ↦ elim (dec_le (header_len + length payload + trailer_len) k) [
          | no cut_off ↦
              let stuck = cut_in_record rs r k h.fit fits long (omega arith) in
              inr (inl (long, omega arith, ground (arith, stuck)))
          | yes all ↦
              let back = cut_behind rs r k h.fit fits all in
              inr (inr (all, back, ground (arith, back, length-append rs (r ∷ []))))
        ]
      ],
    )
