-- ===== src/Features/RingBuffer.antt =====
-- packages/features/src/incremental.ts: the ring buffer. A `Float64Array` is a list of that length,
-- filled with zeros; its elements are only moved.
pub mod Slots
pub mod Window
use ztrade.Prelude.{
  ℕ, zero, suc, ◌+◌, ◌-◌, ◌%◌, Bool, Option, none, some, List, [], ◌∷◌, ltb, leb, ◌==◌,
  if◌then◌else◌, get_elem?,
}

abbrev pub replicate {ℓ} : {A : Type ℓ} → ℕ → A → List A
replicate zero x = []
replicate (suc n) x = x ∷ replicate n x

-- A write at an index.
abbrev pub set {ℓ} : {A : Type ℓ} → List A → ℕ → A → List A
set [] i v = []
set (x ∷ xs) zero v = v ∷ xs
set (x ∷ xs) (suc i) v = x ∷ set xs i v

pub record RingBuffer (V : Type 0) : Type 0 where
  pub capacity : ℕ
  pub slots : List V
  pub head : ℕ
  pub count : ℕ

module _ {V : Type 0} where
  -- The constructor, which throws where the capacity is not positive.
  unfoldable pub new_ring : ℕ → V → Option (RingBuffer V)
  new_ring capacity nought =
      if capacity == 0
      then none
      else some
          (record { capacity = capacity; slots = replicate capacity nought; head = 0; count = 0 })

  abbrev pub is_full : RingBuffer V → Bool
  is_full r = r.count == r.capacity

  -- The evicted value, and the next buffer.
  unfoldable pub push : V → RingBuffer V → Option V × RingBuffer V
  push value r = (
    if is_full r then get_elem? r.slots r.head else none,
    record r {
      slots = set r.slots r.head value;
      head = (r.head + 1) % r.capacity;
      count = if ltb r.count r.capacity then r.count + 1 else r.count;
    },
  )

  unfoldable pub last : RingBuffer V → Option V
  last r = if r.count == 0 then none else get_elem? r.slots ((r.head + r.capacity - 1) % r.capacity)

  unfoldable pub at : ℕ → RingBuffer V → Option V
  at i r =
      if leb r.count i
      then none
      else get_elem? r.slots (((r.head + r.capacity - r.count) % r.capacity + i) % r.capacity)

  abbrev collect : Option V → List V → List V
  collect (some v) out = v ∷ out
  collect none out = out

  -- The loop of `toArray`, with `n` rounds left from `i` on.
  to_array_from : ℕ → ℕ → RingBuffer V → List V
  to_array_from zero i r = []
  to_array_from (suc n) i r = collect (at i r) (to_array_from n (i + 1) r)

  unfoldable pub to_array : RingBuffer V → List V
  unfolding to_array_from
  to_array r = to_array_from r.count 0 r

  unfoldable pub clear : RingBuffer V → RingBuffer V
  clear r = record r { head = 0; count = 0 }
