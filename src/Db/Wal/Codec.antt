-- ===== src/Db/Wal/Codec.antt =====
-- What `encode` writes, `decode_from` reads.
use bypass_io.Prelude.{
  ℕ, zero, suc, ◌^◌, ◌<◌, ◌≡◌, refl, sym, ap, ◌∙◌, List, [], ◌∷◌, ◌++◌, append_assoc, none, some,
  ok, length, length-append, take, drop, arith, lt→ltb, to_le_bytes, from_le_bytes,
  length-to_le_bytes, from_le_bytes-to_le_bytes, bytes_eq_refl, ==_refl, take-append_of_length,
  drop-append_of_length, append-nil,
}
use bypass_io.Db.Wal.Checksum.{checksum32-lt}
use bypass_io.Db.Wal.{
  WalRecord, wal_magic, header_len, trailer_len, checksum32, encode, read_exact, decode_body,
  decode_from,
}

-- A record whose fields fit the words of the format.
pub record IsRecord (r : WalRecord) : Type 0 where
  pub seq_word : r.seq_no < 2 ^ 64
  pub len_word : length r.payload < 2 ^ 32

unfoldable pub header_bytes : WalRecord → List ℕ
header_bytes r = wal_magic ++ (to_le_bytes 8 r.seq_no ++ to_le_bytes 4 (length r.payload))

unfoldable pub trailer_bytes : WalRecord → List ℕ
trailer_bytes r = to_le_bytes 4 (checksum32 (header_bytes r ++ r.payload))

-- The layout of a record in the file.
unfoldable pub record_bytes : WalRecord → List ℕ
record_bytes r = header_bytes r ++ (r.payload ++ trailer_bytes r)

-- A record is written in the layout of the format, unless its payload is too long for the length
-- field.
pub encode-record_bytes : (r : WalRecord) → IsRecord r → encode r ≡ ok (record_bytes r)
unfolding encode record_bytes trailer_bytes header_bytes
encode-record_bytes r h = rw (lt→ltb (length r.payload) (2 ^ 32) h.len_word) (simp append_assoc)

pub length-header_bytes : (r : WalRecord) → length (header_bytes r) ≡ header_len
unfolding header_bytes
length-header_bytes r = omega (
  arith,
  length-append (to_le_bytes 8 r.seq_no) (to_le_bytes 4 (length r.payload)),
  length-to_le_bytes 8 r.seq_no,
  length-to_le_bytes 4 (length r.payload),
)

pub length-trailer_bytes : (r : WalRecord) → length (trailer_bytes r) ≡ trailer_len
unfolding trailer_bytes
length-trailer_bytes r = length-to_le_bytes 4 _

-- A read takes the bytes asked for, and leaves the rest.
pub read_exact-append :
    (n : ℕ) (xs ys : List ℕ) → length xs ≡ n → read_exact n (xs ++ ys) ≡ some (xs, ys)
unfolding read_exact
read_exact-append zero [] ys e = refl
read_exact-append zero (x ∷ xs) ys e = absurd (omega arith)
read_exact-append (suc n) [] ys e = absurd (omega arith)
read_exact-append (suc n) (x ∷ xs) ys e = ground (arith, read_exact-append n xs ys (omega arith))

-- A read past the end fails.
pub read_exact_short : (n : ℕ) (xs : List ℕ) → length xs < n → read_exact n xs ≡ none
unfolding read_exact
read_exact_short zero xs h = absurd (omega arith)
read_exact_short (suc n) [] h = refl
read_exact_short (suc n) (x ∷ xs) h = ground (arith, read_exact_short n xs (omega arith))

trailer_checksum :
    (r : WalRecord) → from_le_bytes (trailer_bytes r) ≡ checksum32 (header_bytes r ++ r.payload)
unfolding trailer_bytes
trailer_checksum r = from_le_bytes-to_le_bytes 4 _ (checksum32-lt (header_bytes r ++ r.payload))

pub header_magic : (r : WalRecord) → take 4 (header_bytes r) ≡ wal_magic
unfolding header_bytes
header_magic r = refl

header_seq_no :
    (r : WalRecord) → IsRecord r → from_le_bytes (take 8 (drop 4 (header_bytes r))) ≡ r.seq_no
unfolding header_bytes
header_seq_no r h =
    ap from_le_bytes
      (take-append_of_length 8 (to_le_bytes 8 r.seq_no) _ (length-to_le_bytes 8 r.seq_no))
    ∙ from_le_bytes-to_le_bytes 8 r.seq_no h.seq_word

pub header_len_field :
    (r : WalRecord)
    → IsRecord r
    → from_le_bytes (take 4 (drop 12 (header_bytes r))) ≡ length r.payload
unfolding header_bytes
header_len_field r h =
    ap (λ (bs : List ℕ). from_le_bytes (take 4 bs))
      (drop-append_of_length 8 (to_le_bytes 8 r.seq_no) _ (length-to_le_bytes 8 r.seq_no))
    ∙ ap from_le_bytes (
        ap (take 4) (sym (append-nil _))
        ∙ take-append_of_length 4 (to_le_bytes 4 (length r.payload)) []
            (length-to_le_bytes 4 (length r.payload)))
    ∙ from_le_bytes-to_le_bytes 4 (length r.payload) h.len_word

decode_body-record_bytes :
    (r : WalRecord) (rest : List ℕ)
    → IsRecord r
    → decode_body (header_bytes r) (r.payload ++ (trailer_bytes r ++ rest)) ≡ ok (some (r, rest))
unfolding decode_body
decode_body-record_bytes r rest h = rw (
  header_seq_no r h,
  header_len_field r h,
  read_exact-append (length r.payload) r.payload (trailer_bytes r ++ rest) refl,
  read_exact-append trailer_len (trailer_bytes r) rest (length-trailer_bytes r),
  trailer_checksum r,
  ==_refl (checksum32 (header_bytes r ++ r.payload)),
)

-- Reading back what was written gives the record, and leaves what follows it.
pub decode_from-record_bytes :
    (r : WalRecord) (rest : List ℕ)
    → IsRecord r
    → decode_from (record_bytes r ++ rest) ≡ ok (some (r, rest))
unfolding decode_from record_bytes
decode_from-record_bytes r rest h =
    rw (append_assoc, append_assoc)
      (ground (
        arith,
        read_exact-append header_len (header_bytes r) (r.payload ++ (trailer_bytes r ++ rest))
            (length-header_bytes r),
        header_magic r,
        bytes_eq_refl wal_magic,
        decode_body-record_bytes r rest h,
      ))
