-- ===== src/Db/Payload/Reads.antt =====
-- What a method of `PayloadReader` reads, with one rule for each way to build a method.
use bypass_io.Prelude.{
  ℕ, ◌+◌, ◌-◌, ◌^◌, ◌≤◌, ◌<◌, ◌≡◌, refl, sym, ap, ap₂, subst, ◌∙◌, Bool, true, List, [], ◌∷◌, ◌++◌,
  append_assoc, some, ok, length, length-append, get_elem?, take, drop, arith, lt→ltb, to_le_bytes,
  from_le_bytes, length-to_le_bytes, from_le_bytes-to_le_bytes, take-append_of_length,
  drop-length-append, get_elem?-append_right,
}
use bypass_io.Prelude.Predicates.{All}
use bypass_io.Db.Error.{DecodeFault}
use bypass_io.Db.Payload.{
  PayloadReader, Parser, bind, pure, require, slice, read_u8, read_array, read_usize, read_bytes,
  read_words, read_strings, write_usize, write_words, write_strings,
}

-- The reader stands before `rest`, and its offsets are words.
pub record Remains (rest : List ℕ) (r : PayloadReader) : Type 0 where
  pub passed : List ℕ
  pub whole : r.input ≡ passed ++ rest
  pub at : r.offset ≡ length passed
  pub small : length r.input < 2 ^ 64

-- `m` reads `xs`, whatever follows it, and returns `v`.
pub record Reads {A : Type 0} (m : Parser A) (xs : List ℕ) (v : A) : Type 0 where
  pub run :
      (rest : List ℕ) (r : PayloadReader)
      → Remains (xs ++ rest) r
      → (r' : PayloadReader) × (m r ≡ ok (v, r')) × Remains rest r'

module _ {A : Type 0} where
  pub Reads-pure : (a : A) → Reads (pure a) [] a
  Reads-pure a = record { run = λ rest r h. (r, refl, h) }

  pub Reads-require :
      (test : Bool) (fault : DecodeFault) (m : Parser A) (xs : List ℕ) (a : A)
      → test ≡ true
      → Reads m xs a
      → Reads (require test fault m) xs a
  Reads-require test fault m xs a e h = record {
    run = λ rest r hr. let (r', f, h') = h.run rest r hr in (r', ground (arith, f), h');
  }

module _ {A B : Type 0} where
  pub Reads-bind :
      (m : Parser A) (f : A → Parser B) (xs ys : List ℕ) (a : A) (b : B)
      → Reads m xs a
      → Reads (f a) ys b
      → Reads (bind m f) (xs ++ ys) b
  Reads-bind m f xs ys a b hm hf = record {
    run = λ rest r h.
        let (r', e, h') =
          hm.run (ys ++ rest) r (subst (λ l. Remains l r) (append_assoc xs ys rest) h) in
        let (r'', e', h'') = hf.run rest r' h' in (r'', ground (arith, e, e'), h'');
  }

-- The same, with the last method reading nothing.
pub Reads-bind-pure :
    {A B : Type 0} (m : Parser A) (f : A → B) (xs : List ℕ) (a : A)
    → Reads m xs a
    → Reads (bind m λ x. pure (f x)) xs (f a)
Reads-bind-pure m f xs a h = record {
  run = λ rest r hr. let (r', e, h') = h.run rest r hr in (r', ground (arith, e), h');
}

pub Reads-array : (n : ℕ) (xs : List ℕ) → length xs ≡ n → Reads (read_array n) xs xs
unfolding read_array
Reads-array n xs e = record {
  run = λ rest r h. (
    record r { offset = r.offset + n },
    ground (
      arith,
      lt→ltb (r.offset + n) (2 ^ 64) (omega (arith, size rest r h, h.small)),
      cut rest r h,
    ),
    record {
      passed = h.passed ++ xs;
      whole = h.whole ∙ sym (append_assoc h.passed xs rest);
      at = omega (arith, h.at, length-append h.passed xs);
      small = h.small;
    },
  );
}
  where
    size :
        (rest : List ℕ) (r : PayloadReader) → Remains (xs ++ rest) r → r.offset + n ≤ length r.input
    size rest r h =
        omega (
          arith,
          h.at,
          ap length h.whole,
          length-append h.passed (xs ++ rest),
          length-append xs rest,
        )

    cut :
        (rest : List ℕ) (r : PayloadReader)
        → Remains (xs ++ rest) r
        → slice r.input r.offset (r.offset + n) ≡ some xs
    cut rest r h = ground (arith, size rest r h, here) ∙ ap some (take-append_of_length n xs rest e)
      where
        here : take (r.offset + n - r.offset) (drop r.offset r.input) ≡ take n (xs ++ rest)
        here =
            ap₂ take {y = n} (omega arith)
              (ap₂ drop h.at h.whole ∙ drop-length-append h.passed (xs ++ rest))

plus_zero : (n : ℕ) → n ≡ n + 0
plus_zero n = omega arith

pub Reads-u8 : (b : ℕ) → Reads read_u8 (b ∷ []) b
unfolding read_u8
Reads-u8 b = record {
  run = λ rest r h. (
    record r { offset = r.offset + 1 },
    ground (arith, here rest r h),
    record {
      passed = h.passed ++ (b ∷ []);
      whole = h.whole ∙ sym (append_assoc h.passed (b ∷ []) rest);
      at = omega (arith, h.at, length-append h.passed (b ∷ []));
      small = h.small;
    },
  );
}
  where
    here :
        (rest : List ℕ) (r : PayloadReader)
        → Remains (b ∷ rest) r
        → get_elem? r.input r.offset ≡ some b
    here rest r h =
        ap₂ get_elem? h.whole (h.at ∙ plus_zero (length h.passed))
        ∙ get_elem?-append_right h.passed (b ∷ rest) 0

pub Reads-usize : (v : ℕ) → v < 2 ^ 64 → Reads read_usize (write_usize v) v
unfolding read_usize write_usize
Reads-usize v h = subst (Reads read_usize (to_le_bytes 8 v)) (from_le_bytes-to_le_bytes 8 v h) (
    Reads-bind-pure (read_array 8) from_le_bytes (to_le_bytes 8 v) (to_le_bytes 8 v)
      (Reads-array 8 (to_le_bytes 8 v) (length-to_le_bytes 8 v)))

-- Byte strings that fit the length field are read back.
pub Reads-bytes :
    (bs : List ℕ) → length bs < 2 ^ 32 → Reads read_bytes (to_le_bytes 4 (length bs) ++ bs) bs
unfolding read_bytes
Reads-bytes bs h =
    Reads-bind (read_array 4) (λ l. read_array (from_le_bytes l)) (to_le_bytes 4 (length bs)) bs
      (to_le_bytes 4 (length bs)) bs
      (Reads-array 4 (to_le_bytes 4 (length bs)) (length-to_le_bytes 4 (length bs)))
      (rw (from_le_bytes-to_le_bytes 4 (length bs) h) (Reads-array (length bs) bs refl))

pub Reads-words :
    (vs : List ℕ) → All (λ v. v < 2 ^ 64) vs → Reads (read_words (length vs)) (write_words vs) vs
unfolding read_words write_words
Reads-words [] h = Reads-pure []
Reads-words (v ∷ vs) h =
    Reads-bind (read_array 8) _ (to_le_bytes 8 v) (write_words vs) (to_le_bytes 8 v) (v ∷ vs)
      (Reads-array 8 (to_le_bytes 8 v) (length-to_le_bytes 8 v))
      (rw (from_le_bytes-to_le_bytes 8 v h.0) (
        Reads-bind-pure (read_words (length vs)) (λ ws. v ∷ ws) (write_words vs) vs
          (Reads-words vs h.1)))

pub Reads-strings :
    (vs : List (List ℕ))
    → All (λ v. length v < 2 ^ 32) vs
    → (bs : List ℕ) × (write_strings vs ≡ ok bs) × Reads (read_strings (length vs)) bs vs
unfolding read_strings write_strings
Reads-strings [] h = ([], refl, Reads-pure [])
Reads-strings (v ∷ vs) h =
    let (bs, written, reads) = Reads-strings vs h.1 in
    (
      (to_le_bytes 4 (length v) ++ v) ++ bs,
      ground (arith, written, lt→ltb (length v) (2 ^ 32) h.0),
      Reads-bind read_bytes _ (to_le_bytes 4 (length v) ++ v) bs v (v ∷ vs) (Reads-bytes v h.0)
          (Reads-bind-pure (read_strings (length vs)) (λ ws. v ∷ ws) bs vs reads),
    )
