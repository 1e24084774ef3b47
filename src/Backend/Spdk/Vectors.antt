-- ===== src/Backend/Spdk/Vectors.antt =====
-- The buffers of a vectored request of bypass-io/src/backend/spdk.rs: their bytes and their memory.
use bypass_io.Prelude.{
  ℕ, ◌+◌, ◌^◌, ◌<◌, ltb, lt→ltb, ap, ◌∙◌, ◌≡◌, refl, true, List, [], ◌∷◌, subst, ok, arith, ok_or,
  >>=-eq-ok, checked_add,
}
use bypass_io.Backend.Buffers.{HugeBuf}
use bypass_io.Backend.Spdk.{
  SpdkBufferSegment, length_overflow, from_pooled, spdk_segments, total_from, total_pooled_len,
}
use bypass_io.Backend.Spdk.Preparing.{IsDma, from_pooled-IsDma, IsDma-from_pooled}

-- The bytes of all the buffers.
abbrev pub total_len : List HugeBuf → ℕ
total_len [] = 0
total_len (b ∷ bs) = b.len + total_len bs

abbrev pub AllDma : List HugeBuf → List SpdkBufferSegment → Type 0
AllDma [] [] = Unit
AllDma [] (s ∷ ss) = ⊥
AllDma (b ∷ bs) [] = ⊥
AllDma (b ∷ bs) (s ∷ ss) = IsDma b s × AllDma bs ss

pub spdk_segments-AllDma :
    (bufs : List HugeBuf) (ss : List SpdkBufferSegment)
    → spdk_segments bufs ≡ ok ss
    → AllDma bufs ss
unfolding spdk_segments
spdk_segments-AllDma [] [] e = tt
spdk_segments-AllDma [] (s ∷ ss) e = absurd (ground (arith, e))
spdk_segments-AllDma (b ∷ bs) ss e =
    let (x, at, e1) = >>=-eq-ok (from_pooled b) _ e in
    let (rest, there, e2) = >>=-eq-ok (spdk_segments bs) _ e1 in
    let same : x ∷ rest ≡ ss = ground (arith, e2) in
    subst (AllDma (b ∷ bs)) same (from_pooled-IsDma b x at, spdk_segments-AllDma bs rest there)

pub AllDma-spdk_segments :
    (bufs : List HugeBuf) (ss : List SpdkBufferSegment)
    → AllDma bufs ss
    → spdk_segments bufs ≡ ok ss
unfolding spdk_segments
AllDma-spdk_segments [] [] h = refl
AllDma-spdk_segments [] (s ∷ ss) h = absurd h
AllDma-spdk_segments (b ∷ bs) [] h = absurd h
AllDma-spdk_segments (b ∷ bs) (s ∷ ss) (here, there) =
    ground (arith, IsDma-from_pooled b s here, AllDma-spdk_segments bs ss there)

total_from-eq-ok :
    (bufs : List HugeBuf) (total len : ℕ)
    → total < 2 ^ 64
    → total_from total bufs ≡ ok len
    → (len ≡ total + total_len bufs) × (len < 2 ^ 64)
unfolding total_from
total_from-eq-ok [] total len word e = (ground (arith, e), ground (arith, e, word))
total_from-eq-ok (b ∷ bs) total len word e =
    let (next, at, e1) = >>=-eq-ok (ok_or (checked_add total b.len) length_overflow) _ e in
    let sum : next ≡ total + b.len = ground (arith, at) in
    let fits : next < 2 ^ 64 = ground (arith, at) in
    let rest = total_from-eq-ok bs next len fits e1 in (omega (arith, rest.0, sum), rest.1)

total_from-ok :
    (bufs : List HugeBuf) (total : ℕ)
    → total + total_len bufs < 2 ^ 64
    → total_from total bufs ≡ ok (total + total_len bufs)
unfolding total_from
total_from-ok [] total fits = ground arith
total_from-ok (b ∷ bs) total fits =
    let added : ltb (total + b.len) (2 ^ 64) ≡ true =
      lt→ltb (total + b.len) (2 ^ 64) (omega (arith, fits)) in
    ground (arith, added, total_from-ok bs (total + b.len) (omega (arith, fits)))

pub total_pooled_len-eq-ok :
    (bufs : List HugeBuf) (len : ℕ)
    → total_pooled_len bufs ≡ ok len
    → (len ≡ total_len bufs) × (len < 2 ^ 64)
unfolding total_pooled_len
total_pooled_len-eq-ok bufs len e =
    let (sum, word) = total_from-eq-ok bufs 0 len (omega arith) e in (omega (arith, sum), word)

pub total_pooled_len-ok :
    (bufs : List HugeBuf) → total_len bufs < 2 ^ 64 → total_pooled_len bufs ≡ ok (total_len bufs)
unfolding total_pooled_len
total_pooled_len-ok bufs fits =
    let none_before : 0 + total_len bufs ≡ total_len bufs = omega arith in
    total_from-ok bufs 0 (omega (arith, fits)) ∙ ap ok none_before
