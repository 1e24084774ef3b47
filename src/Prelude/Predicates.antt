-- ===== src/Prelude/Predicates.antt =====
-- Predicates on all elements of a list, by recursion.
use Prim.Native.Nat.{ℕ, zero, suc}
use mathlib.Core.Path.{◌≡◌, subst}
use mathlib.Core.List.{List, [], ◌∷◌, ◌++◌}
use mathlib.Core.Option.{some}
use bypass_io.Prelude.Lists.{get_elem?}

module _ {ℓ κ} {A : Type ℓ} (P : A → Type κ) where
  -- `P` holds of each element.
  abbrev pub All : List A → Type κ
  All [] = Unit
  All (a ∷ l) = P a × All l

  pub All-append : (front back : List A) → All front → All back → All (front ++ back)
  All-append [] back hf hb = hb
  All-append (a ∷ front) back hf hb = (hf.0, All-append front back hf.1 hb)

  pub All-get_elem? : (l : List A) (i : ℕ) {a : A} → All l → get_elem? l i ≡ some a → P a
  All-get_elem? [] i h e = cc
  All-get_elem? (x ∷ l) zero {a} h e = subst P x-eq-a h.0
    where
      x-eq-a : x ≡ a
      x-eq-a = cc
  All-get_elem? (x ∷ l) (suc i) h e = All-get_elem? l i h.1 e
