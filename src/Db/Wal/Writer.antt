-- ===== src/Db/Wal/Writer.antt =====
-- The writer of a log: what its file holds after each call, and after a restart.
use bypass_io.Prelude.{
  ℕ, suc, ◌+◌, ◌^◌, ◌≤◌, ◌<◌, ◌≡◌, refl, sym, ap, ◌∙◌, true, List, [], ◌∷◌, ◌++◌, append_assoc,
  append-nil, some, ok, err, length, length-append, take, arith, lt→ltb,
}
use bypass_io.Prelude.Predicates.{All, All-append}
use bypass_io.Db.Wal.{
  WalRecord, io, payload_too_large, records, WalWriter, open_writer, Written, complete, failed,
  write_all, append, reset, encode,
}
use bypass_io.Db.Wal.Codec.{IsRecord, record_bytes, encode-record_bytes}
use bypass_io.Db.Wal.Log.{log_bytes}
use bypass_io.Db.Wal.Recovery.{records_torn_header}

-- The records are numbered from `n`.
abbrev pub Numbered : ℕ → List WalRecord → Type 0
Numbered n [] = Unit
Numbered n (r ∷ rs) = (r.seq_no ≡ n) × Numbered (suc n) rs

-- The file of the writer is the log of these records, and the writer continues their numbering.
pub record Logs (w : WalWriter) (rs : List WalRecord) : Type 0 where
  pub written : w.file ≡ log_bytes rs
  pub fit : All IsRecord rs
  pub numbered : Numbered 0 rs
  pub next : w.next_seq_no ≡ length rs

abbrev pub new_record : WalWriter → List ℕ → WalRecord
new_record w payload = record { seq_no = w.next_seq_no; payload = payload }

Numbered-snoc :
    (n : ℕ) (rs : List WalRecord) (r : WalRecord)
    → Numbered n rs
    → r.seq_no ≡ n + length rs
    → Numbered n (rs ++ (r ∷ []))
Numbered-snoc n [] r h e = (omega arith, tt)
Numbered-snoc n (s ∷ rs) r h e = (h.0, Numbered-snoc (suc n) rs r h.1 (omega arith))

pub log_bytes-snoc :
    (rs : List WalRecord) (r : WalRecord)
    → log_bytes (rs ++ (r ∷ [])) ≡ log_bytes rs ++ record_bytes r
unfolding log_bytes
log_bytes-snoc [] r = append-nil (record_bytes r)
log_bytes-snoc (s ∷ rs) r =
    ap (λ l. record_bytes s ++ l) (log_bytes-snoc rs r)
    ∙ sym (append_assoc (record_bytes s) (log_bytes rs) (record_bytes r))

-- An append that the system completes returns the next number, and adds the payload under that
-- number to the end of the log.
pub append-Logs :
    (w : WalWriter) (rs : List WalRecord) (payload : List ℕ)
    → Logs w rs
    → length payload < 2 ^ 32
    → length rs + 1 < 2 ^ 64
    → (w' : WalWriter) × (append complete w payload ≡ (ok (length rs), w'))
      × Logs w' (rs ++ (new_record w payload ∷ []))
unfolding append write_all
append-Logs w rs payload h small room = (
  record { file = w.file ++ record_bytes (new_record w payload); next_seq_no = w.next_seq_no + 1 },
  ground (
    arith,
    h.next,
    lt→ltb (w.next_seq_no + 1) (2 ^ 64) (omega (arith, h.next)),
    encode-record_bytes (new_record w payload) fits,
  ),
  record {
    written =
        ap (λ (f : List ℕ). f ++ record_bytes (new_record w payload)) h.written
        ∙ sym (log_bytes-snoc rs (new_record w payload));
    fit = All-append IsRecord rs (new_record w payload ∷ []) h.fit (fits, tt);
    numbered = Numbered-snoc 0 rs (new_record w payload) h.numbered (omega (arith, h.next));
    next = omega (arith, h.next, length-append rs (new_record w payload ∷ []));
  },
)
  where
    fits : IsRecord (new_record w payload)
    fits = record { seq_word = omega (arith, h.next); len_word = small }

pub open_writer-Logs :
    (w : WalWriter) (rs : List WalRecord) → Logs w rs → open_writer w.file ≡ some (ok w)
unfolding open_writer
open_writer-Logs w rs h = ground (arith, scan, h.next)
  where
    scan : records w.file ≡ some (ok rs)
    scan =
        ap records (h.written ∙ sym (append-nil _)) ∙ records_torn_header rs [] h.fit (omega arith)

-- A reset that the system completes leaves the log empty, numbered from 0.
pub reset-Logs : (w : WalWriter) → (w' : WalWriter) × (reset true true w ≡ (ok tt, w')) × Logs w' []
unfolding reset log_bytes
reset-Logs w = (
  record { file = []; next_seq_no = 0 },
  refl,
  record { written = refl; fit = tt; numbered = tt; next = refl },
)

-- A payload that is too long is refused and not written, but its sequence number is used up.
pub append_too_large :
    (os : Written) (w : WalWriter) (payload : List ℕ)
    → 2 ^ 32 ≤ length payload
    → w.next_seq_no + 1 < 2 ^ 64
    → append os w payload
      ≡ (err (payload_too_large (length payload)), record w { next_seq_no = w.next_seq_no + 1 })
unfolding append encode
append_too_large os w payload big room = ground arith

-- After a failed write, the file has grown by what the system wrote of the record, a proper prefix
-- or all of it, and the call reports the error.
pub append_failed :
    (k : ℕ) (w : WalWriter) (rs : List WalRecord) (payload : List ℕ)
    → Logs w rs
    → length payload < 2 ^ 32
    → length rs + 1 < 2 ^ 64
    → append (failed k) w payload ≡ (
      err io,
      record {
        file = log_bytes rs ++ take k (record_bytes (new_record w payload));
        next_seq_no = length rs + 1;
      },
    )
unfolding append write_all
append_failed k w rs payload h small room = ground (
  arith,
  h.next,
  h.written,
  lt→ltb (w.next_seq_no + 1) (2 ^ 64) (omega (arith, h.next)),
  encode-record_bytes (new_record w payload)
      (record { seq_word = omega (arith, h.next); len_word = small }),
)
