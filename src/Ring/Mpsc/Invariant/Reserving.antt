-- ===== src/Ring/Mpsc/Invariant/Reserving.antt =====
-- The successful compare-exchange of `push` of bypass-io/src/ring/mpsc.rs keeps the invariant.
use bypass_io.Prelude.{
  ℕ, suc, ◌+◌, ◌%◌, ◌^◌, ◌<◌, ◌≡◌, ◌≢◌, refl, sym, ap, subst, ◌∙◌, false, inl, inr, List, [], ◌∷◌,
  ◌++◌, some, arith, length, length-append, get_elem?, get_elem?-lt, get_elem?-append_left,
  get_elem?-append_right, append_assoc, Bool-cases, wrapping_add,
}
use bypass_io.Ring.Mpsc.{
  MpscRing, Producer, idle, loaded, checked, reserved, written, Consumer, waiting, at_tail,
  nonempty, readable, taken, cleared, System, update, ready_at,
}
use bypass_io.Ring.Mpsc.Invariant.{ticket, Fine, Sees, Inv, update-All, Fine-ticket}

module _ {T : Type 0} where
  get_elem?-snoc_left :
      (xs : List T) (x a : T) (i : ℕ)
      → get_elem? xs i ≡ some a
      → get_elem? (xs ++ (x ∷ [])) i ≡ some a
  get_elem?-snoc_left xs x a i e = get_elem?-append_left xs (x ∷ []) i (get_elem?-lt xs i e) ∙ e

  get_elem?-snoc_last : (xs : List T) (x : T) → get_elem? (xs ++ (x ∷ [])) (length xs) ≡ some x
  get_elem?-snoc_last xs x =
      ap (get_elem? (xs ++ (x ∷ []))) (omega arith) ∙ get_elem?-append_right xs (x ∷ []) 0

  -- After one more reservation.
  Fine-win :
      (k : ℕ) (r : MpscRing T) (accepted : List T) (x : T) (p : Producer T) (n : ℕ)
      → n ≡ suc r.head
      → Fine k r accepted p
      → Fine k (record r { head = n }) (accepted ++ (x ∷ [])) p
  Fine-win k r accepted x idle n e h = tt
  Fine-win k r accepted x (loaded item g) n e h = omega arith
  Fine-win k r accepted x (checked item g) n e h = (omega arith, λ same. absurd (omega arith))
  Fine-win k r accepted x (reserved item t) n e h =
      (h.0, omega (arith, h.1), h.2, get_elem?-snoc_left accepted x item t h.3)
  Fine-win k r accepted x (written item t) n e h =
      ((h.0.0, omega (arith, h.0.1), h.0.2, get_elem?-snoc_left accepted x item t h.0.3), h.1)

  Sees-win :
      (k : ℕ) (r : MpscRing T) (f : ℕ → Producer T) (i : ℕ) (accepted : List T) (x : T)
      (c : Consumer T) (n : ℕ)
      → n ≡ suc r.head
      → Sees k r f accepted c
      → Sees k (record r { head = n }) (update f i (reserved x r.head)) (accepted ++ (x ∷ [])) c
  Sees-win k r f i accepted x waiting n e h = tt
  Sees-win k r f i accepted x (at_tail t) n e h = h
  Sees-win k r f i accepted x (nonempty t) n e h = (h.0, omega (arith, h.1))
  Sees-win k r f i accepted x (readable t) n e h = (h.0, omega (arith, h.1), h.2)
  Sees-win k r f i accepted x (taken t item) n e h =
      (h.0, omega (arith, h.1), h.2, get_elem?-snoc_left accepted x item t h.3)
  Sees-win k r f i accepted x (cleared t item) n e h = (
    h.0,
    omega (arith, h.1),
    h.2,
    get_elem?-snoc_left accepted x item t h.3,
    update-All (λ q. ticket q ≢ some t) f i (reserved x r.head)
        (λ same. absurd (ground (arith, same, h.0, h.1))) (λ j ne. h.4 j),
  )

  -- The state after producer `i` has reserved the ticket `h`.
  abbrev pub won : System T → ℕ → T → ℕ → System T
  won s i item h = record s {
    ring = record s.ring { head = wrapping_add h 1 };
    producers = update s.producers i (reserved item h);
    accepted = s.accepted ++ (item ∷ []);
  }

  head-Inv :
      (k : ℕ) (s : System T) (i : ℕ) (item : T)
      → Inv k s
      → s.producers i ≡ checked item s.ring.head
      → length s.accepted + 1 < 2 ^ 64
      → Inv k (won s i item s.ring.head)
  head-Inv k s i item inv at few = record {
    small = inv.small;
    masked = inv.masked;
    sized = inv.sized;
    bounded = omega (arith, next, inv.heads);
    heads = omega (arith, next, inv.heads, length-append s.accepted (item ∷ []));
    tails = inv.tails;
    below = omega (arith, next, inv.below);
    within = omega (arith, next, room_left);
    pending = inv.pending ++ (item ∷ []);
    split = ap (λ l. l ++ (item ∷ [])) inv.split ∙ append_assoc s.returned inv.pending (item ∷ []);
    published = λ j low high shown.
        let (a, value, here) = inv.published j low high shown in
        (a, value, get_elem?-snoc_left s.accepted item a j here);
    fine =
        update-All
          (Fine k (record s.ring { head = wrapping_add s.ring.head 1 }) (s.accepted ++ (item ∷ [])))
          s.producers i (reserved item s.ring.head)
          (
            inv.below,
            omega (arith, next),
            dark,
            ap (get_elem? (s.accepted ++ (item ∷ []))) inv.heads
                ∙ get_elem?-snoc_last s.accepted item,
          )
          (λ j ne. Fine-win k s.ring s.accepted item (s.producers j) _ next (inv.fine j));
    distinct = λ a b t x y. ground (
      arith,
      inv.distinct a b t,
      Fine-ticket k s.ring s.accepted (s.producers a) t (inv.fine a),
      Fine-ticket k s.ring s.accepted (s.producers b) t (inv.fine b),
    );
    sees = Sees-win k s.ring s.producers i s.accepted item s.consumer _ next inv.sees;
  }
    where
      next : wrapping_add s.ring.head 1 ≡ suc s.ring.head
      next = omega (arith, inv.heads)

      room_left : s.ring.head < s.ring.tail + 2 ^ k
      room_left = (subst (Fine k s.ring s.accepted) at (inv.fine i)).1 refl

      -- The slot of the new ticket is not readable: no item has that ticket yet.
      dark : ready_at s.ring.slots (s.ring.head % 2 ^ k) ≡ false
      dark = elim (Bool-cases (ready_at s.ring.slots (s.ring.head % 2 ^ k))) [
        | inr e ↦ e
        | inl e ↦
            let (a, value, here) = inv.published s.ring.head inv.below room_left e in
            absurd (omega (arith, get_elem?-lt s.accepted s.ring.head here, inv.heads))
      ]

  pub win-Inv :
      (k : ℕ) (s : System T) (i : ℕ) (item : T) (h : ℕ)
      → Inv k s
      → s.producers i ≡ checked item h
      → s.ring.head ≡ h
      → length s.accepted + 1 < 2 ^ 64
      → Inv k (won s i item h)
  win-Inv k s i item h inv at same few =
      subst (λ g. Inv k (won s i item g)) same
        (head-Inv k s i item inv (at ∙ ap (checked item) (sym same)) few)
