-- ===== src/Ring/Mpsc.antt =====
-- bypass-io/src/ring/mpsc.rs: the ring, and its producers and its consumer interleaved, one access
-- of shared memory at a time. Accesses take effect in one order; what weaker orderings allow is left
-- out.
pub mod Slots
pub mod Invariant
pub mod Safety
pub mod Runs
pub mod Progress
mod Tests
use bypass_io.Prelude.{
  ℕ, zero, suc, ◌+◌, ◌-◌, ◌<◌, ◌≡◌, ◌≢◌, Bool, true, false, List, [], ◌∷◌, ◌++◌, Option, none, some,
  bit_and, length, replicate, ltb, ◌==◌, if◌then◌else◌, wrapping_add, wrapping_sub, is_power_of_two,
}

-- `Slot<T>`: `none` is a value that was never written.
pub record Slot (T : Type 0) : Type 0 where
  pub ready : Bool
  pub value : Option T

-- `MpscRing<T>`; the counters are words.
pub record MpscRing (T : Type 0) : Type 0 where
  pub head : ℕ
  pub tail : ℕ
  pub slots : List (Slot T)
  pub mask : ℕ

-- Where a call of `push` stands, with its local variables.
pub data Producer (T : Type 0) : Type 0 where
  idle : Producer T
  loaded : (item : T) (head : ℕ) → Producer T  -- head of the loop
  checked : (item : T) (head : ℕ) → Producer T  -- before the compare-exchange
  reserved : (item : T) (ticket : ℕ) → Producer T  -- before the write of the value
  written : (item : T) (ticket : ℕ) → Producer T  -- before the store of `ready`

-- Where `pop` stands.
pub data Consumer (T : Type 0) : Type 0 where
  waiting : Consumer T
  at_tail : (tail : ℕ) → Consumer T  -- before the load of `head`
  nonempty : (tail : ℕ) → Consumer T  -- before the load of `ready`
  readable : (tail : ℕ) → Consumer T  -- before the read of the value
  taken : (tail : ℕ) (item : T) → Consumer T  -- before `ready` is cleared
  cleared : (tail : ℕ) (item : T) → Consumer T  -- before the store of `tail`

abbrev pub update {ℓ} : {A : Type ℓ} → (ℕ → A) → ℕ → A → ℕ → A
update f i a j = if i == j then a else f j

module _ {T : Type 0} where
  -- `none` is a panic of one of the assertions.
  unfoldable pub new : ℕ → Option (MpscRing T)
  unfolding is_power_of_two
  new capacity =
      if is_power_of_two capacity
      then (if ltb 0 capacity
          then some (record {
            head = 0;
            tail = 0;
            slots = replicate capacity (record { ready = false; value = none });
            mask = capacity - 1;
          })
          else none)
      else none

  unfoldable pub capacity : MpscRing T → ℕ
  capacity r = length r.slots

  unfoldable pub len : MpscRing T → ℕ
  len r = wrapping_sub r.head r.tail

  unfoldable pub is_empty : MpscRing T → Bool
  unfolding len
  is_empty r = len r == 0

  -- The write of a slot's value, and the store of its flag.
  unfoldable pub store_value : List (Slot T) → ℕ → T → List (Slot T)
  store_value [] i item = []
  store_value (s ∷ ss) zero item = record s { value = some item } ∷ ss
  store_value (s ∷ ss) (suc i) item = s ∷ store_value ss i item

  unfoldable pub store_ready : List (Slot T) → ℕ → Bool → List (Slot T)
  store_ready [] i b = []
  store_ready (s ∷ ss) zero b = record s { ready = b } ∷ ss
  store_ready (s ∷ ss) (suc i) b = s ∷ store_ready ss i b

  abbrev pub ready_at : List (Slot T) → ℕ → Bool
  ready_at [] i = false
  ready_at (s ∷ ss) zero = s.ready
  ready_at (s ∷ ss) (suc i) = ready_at ss i

  abbrev pub value_at : List (Slot T) → ℕ → Option T
  value_at [] i = none
  value_at (s ∷ ss) zero = s.value
  value_at (s ∷ ss) (suc i) = value_at ss i

  -- `drop`: the items that are dropped; `none` is a drop of a value that was never written.
  unfoldable pub drop_slots : List (Slot T) → Option (List T)
  drop_slots [] = some []
  drop_slots (s ∷ ss) = elim (drop_slots ss) [
    | none ↦ none
    | some items ↦ elim s.ready [
      | false ↦ some items
      | true ↦ elim s.value [ none ↦ none | some item ↦ some (item ∷ items) ]
    ]
  ]

-- The ring with any number of producers and one consumer. The last two fields are no state of the
-- program: the items in the order of their reservations, and those that `pop` has returned.
pub record System (T : Type 0) : Type 0 where
  pub ring : MpscRing T
  pub producers : ℕ → Producer T
  pub consumer : Consumer T
  pub accepted : List T
  pub returned : List T

abbrev pub slot_of : {T : Type 0} → MpscRing T → ℕ → ℕ
slot_of r ticket = bit_and ticket r.mask

module _ {T : Type 0} where
  abbrev pub set_producer : System T → ℕ → Producer T → System T
  set_producer s i p = record s { producers = update s.producers i p }

  -- A step of producer `i`.
  pub data Produce (i : ℕ) (s : System T) : System T → Type 0 where
    begin :
        (item : T) → s.producers i ≡ idle → Produce i s (set_producer s i (loaded item s.ring.head))
    full :
        (item : T) (h : ℕ)
        → s.producers i ≡ loaded item h
        → (wrapping_sub h s.ring.tail == length s.ring.slots) ≡ true
        → Produce i s (set_producer s i idle)
    room :
        (item : T) (h : ℕ)
        → s.producers i ≡ loaded item h
        → (wrapping_sub h s.ring.tail == length s.ring.slots) ≡ false
        → Produce i s (set_producer s i (checked item h))
    win :
        (item : T) (h : ℕ)
        → s.producers i ≡ checked item h
        → s.ring.head ≡ h
        → Produce i s (record s {
          ring = record s.ring { head = wrapping_add h 1 };
          producers = update s.producers i (reserved item h);
          accepted = s.accepted ++ (item ∷ []);
        })
    -- Another producer was faster, or the weak exchange failed without a reason.
    lose :
        (item : T) (h : ℕ)
        → s.producers i ≡ checked item h
        → Produce i s (set_producer s i (loaded item s.ring.head))
    write :
        (item : T) (ticket : ℕ)
        → s.producers i ≡ reserved item ticket
        → slot_of s.ring ticket < length s.ring.slots
        → Produce i s (record s {
          ring = record s.ring { slots = store_value s.ring.slots (slot_of s.ring ticket) item };
          producers = update s.producers i (written item ticket);
        })
    publish :
        (item : T) (ticket : ℕ)
        → s.producers i ≡ written item ticket
        → Produce i s (record s {
          ring = record s.ring { slots = store_ready s.ring.slots (slot_of s.ring ticket) true };
          producers = update s.producers i idle;
        })

  -- A step of the consumer.
  pub data Consume (s : System T) : System T → Type 0 where
    start : s.consumer ≡ waiting → Consume s (record s { consumer = at_tail s.ring.tail })
    empty :
        (t : ℕ)
        → s.consumer ≡ at_tail t
        → t ≡ s.ring.head
        → Consume s (record s { consumer = waiting })
    some_reserved :
        (t : ℕ)
        → s.consumer ≡ at_tail t
        → t ≢ s.ring.head
        → Consume s (record s { consumer = nonempty t })
    not_ready :
        (t : ℕ)
        → s.consumer ≡ nonempty t
        → slot_of s.ring t < length s.ring.slots
        → ready_at s.ring.slots (slot_of s.ring t) ≡ false
        → Consume s (record s { consumer = waiting })
    see_ready :
        (t : ℕ)
        → s.consumer ≡ nonempty t
        → slot_of s.ring t < length s.ring.slots
        → ready_at s.ring.slots (slot_of s.ring t) ≡ true
        → Consume s (record s { consumer = readable t })
    -- The value has been written.
    take :
        (t : ℕ) (item : T)
        → s.consumer ≡ readable t
        → value_at s.ring.slots (slot_of s.ring t) ≡ some item
        → Consume s (record s { consumer = taken t item })
    clear :
        (t : ℕ) (item : T)
        → s.consumer ≡ taken t item
        → Consume s (record s {
          ring = record s.ring { slots = store_ready s.ring.slots (slot_of s.ring t) false };
          consumer = cleared t item;
        })
    advance :
        (t : ℕ) (item : T)
        → s.consumer ≡ cleared t item
        → Consume s (record s {
          ring = record s.ring { tail = wrapping_add t 1 };
          consumer = waiting;
          returned = s.returned ++ (item ∷ []);
        })

  abbrev pub init : MpscRing T → System T
  init r = record {
    ring = r;
    producers = λ _. idle;
    consumer = waiting;
    accepted = [];
    returned = [];
  }

  -- The states that calls on the ring `r` lead to, in any interleaving.
  pub data Reach (r : MpscRing T) : System T → Type 0 where
    fresh : Reach r (init r)
    produce : {s t : System T} (i : ℕ) → Reach r s → Produce i s t → Reach r t
    consume : {s t : System T} → Reach r s → Consume s t → Reach r t
