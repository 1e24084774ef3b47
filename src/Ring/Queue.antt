-- ===== src/Ring/Queue.antt =====
-- What a bounded ring promises: a FIFO of at most `cap` items, oldest first.
use bypass_io.Prelude.{
  ℕ, List, [], ◌∷◌, ◌++◌, Option, none, some, Result, ok, err, length, ◌==◌, if◌then◌else◌,
}

module _ {ℓ} {T : Type ℓ} where
  -- A full queue gives the item back.
  unfoldable pub push : ℕ → List T → T → Result T (Unit {0}) × List T
  push cap q x = if length q == cap then (err x, q) else (ok tt, q ++ (x ∷ []))

  unfoldable pub pop : List T → Option T × List T
  pop [] = (none, [])
  pop (x ∷ q) = (some x, q)

-- A client's calls, and what it sees of each.
pub data Op {ℓ} (T : Type ℓ) : Type ℓ where
  put : T → Op T
  get : Op T

pub data Reply {ℓ} (T : Type ℓ) : Type ℓ where
  pushed : Result T (Unit {0}) → Reply T
  popped : Option T → Reply T

module _ {ℓ} {T : Type ℓ} where
  unfoldable pub run : ℕ → List T → List (Op T) → List (Reply T)
  unfolding push pop
  run cap q [] = []
  run cap q (put x ∷ ops) = let (r, q') = push cap q x in pushed r ∷ run cap q' ops
  run cap q (get ∷ ops) = let (r, q') = pop q in popped r ∷ run cap q' ops
