-- ===== src/Features/RingBuffer/Window.antt =====
-- The ring buffer holds the last values that were pushed.
use ztrade.Prelude.{
  ℕ, zero, suc, ◌+◌, ◌-◌, ◌%◌, ◌≤◌, ◌<◌, ◌≡◌, refl, sym, ap, ◌∙◌, inl, inr, true, false, none, some,
  List, [], ◌∷◌, ◌++◌, arith, leb, ◌==◌, if◌then◌else◌, Bool-cases, length, get_elem?,
  length-append,
}
use mathlib.Core.List.{append-nil, append_assoc}
use mathlib.Core.Path.{subst}
use native.Mathlib.Nat.{mod-eq_of_lt, mod-add-mod, mod-eq-sub-mod, mod-lt}
use ztrade.Features.RingBuffer.{
  RingBuffer, replicate, new_ring, push, at, to_array_from, to_array, last,
}
use ztrade.Features.RingBuffer.Slots.{
  get_elem?-set_self, get_elem?-set_other, length-set, length-replicate, get_elem?-append,
  slots_differ, slot_of, absent, last_slot, drop, last_n,
}

module _ {V : Type 0} where
  -- The buffer after all of `pushed`: the value with the number `i` is in the slot `i % capacity`.
  record Holds (pushed : List V) (r : RingBuffer V) : Type 0 where
    positive : 0 < r.capacity
    sized : length r.slots ≡ r.capacity
    head_at : r.head ≡ length pushed % r.capacity
    counted : r.count ≡ length pushed - (length pushed - r.capacity)
    kept :
        (i : ℕ)
        → i < length pushed
        → length pushed ≤ i + r.capacity
        → get_elem? r.slots (i % r.capacity) ≡ get_elem? pushed i

  new_ring-Holds :
      (capacity : ℕ) (nought : V)
      → 0 < capacity
      → (r : RingBuffer V) × (new_ring capacity nought ≡ some r)
        × Holds [] r
        × (r.capacity ≡ capacity)
  unfolding new_ring
  new_ring-Holds capacity nought h = (
    record { capacity = capacity; slots = replicate capacity nought; head = 0; count = 0 },
    ground arith,
    record {
      positive = h;
      sized = length-replicate capacity nought;
      head_at = sym (mod-eq_of_lt h);
      counted = omega arith;
      kept = λ i k l. absurd (omega arith);
    },
    refl,
  )

  push-Holds :
      (pushed : List V) (v : V) (r : RingBuffer V)
      → Holds pushed r
      → Holds (pushed ++ (v ∷ [])) (push v r).1
  unfolding push
  push-Holds pushed v r h = record {
    positive = h.positive;
    sized = length-set r.slots r.head v ∙ h.sized;
    head_at =
        rw (h.head_at, length-append pushed (v ∷ [])) (mod-add-mod (length pushed) r.capacity 1);
    counted = ground (arith, h.counted, h.positive, length-append pushed (v ∷ []));
    kept = λ i k l.
        let n = length pushed in
        let size = length-append pushed (v ∷ []) in
        rw (get_elem?-append pushed i v) (elim (Bool-cases (i == n)) [
          | inl e ↦
              let same : i ≡ n = ground (arith, e) in
              rw (e, same, h.head_at)
                (get_elem?-set_self r.slots (n % r.capacity) v (rw h.sized (mod-lt n h.positive)))
          | inr e ↦
              let before : i < n = ground (arith, e, size, k) in
              let recent : n < i + r.capacity = omega (arith, size, l) in
              rw (e, h.head_at)
                (get_elem?-set_other r.slots (n % r.capacity) (i % r.capacity) v
                    (λ same. slots_differ r.capacity i n before recent (sym same))
                  ∙ h.kept i before (omega (arith, recent)))
        ]);
  }

  -- What is read at `i`, and what a push puts out.
  at-Holds :
      (pushed : List V) (r : RingBuffer V) (i : ℕ)
      → Holds pushed r
      → i < r.count
      → at i r ≡ get_elem? pushed (length pushed - r.count + i)
  unfolding at
  at-Holds pushed r i h k =
      let n = length pushed in
      let start : ((r.head + r.capacity - r.count) % r.capacity + i) % r.capacity
          ≡ (n - r.count + i) % r.capacity =
        slot_of r.capacity n r.head r.count i h.positive h.head_at h.counted in
      let test : leb r.count i ≡ false = ground (arith, k) in
      rw (test, start)
        (h.kept (n - r.count + i) (omega (arith, h.counted, k)) (omega (arith, h.counted, k)))

  drop_next :
      (xs : List V) (j : ℕ) (x : V) → get_elem? xs j ≡ some x → drop j xs ≡ x ∷ drop (suc j) xs
  drop_next [] j x h = cc
  drop_next (y ∷ xs) zero x h = ground (arith, h)
  drop_next (y ∷ xs) (suc j) x h = drop_next xs j x h

  drop_all : (xs : List V) (j : ℕ) → length xs ≤ j → drop j xs ≡ []
  drop_all [] zero h = refl
  drop_all [] (suc j) h = refl
  drop_all (x ∷ xs) zero h = absurd (omega arith)
  drop_all (x ∷ xs) (suc j) h = drop_all xs j (omega arith)

  get_elem?-found : (xs : List V) (j : ℕ) → j < length xs → (x : V) × (get_elem? xs j ≡ some x)
  get_elem?-found [] j h = absurd (omega arith)
  get_elem?-found (x ∷ xs) zero h = (x, refl)
  get_elem?-found (x ∷ xs) (suc j) h = get_elem?-found xs j (omega arith)

  to_array_from-Holds :
      (pushed : List V) (r : RingBuffer V) (n i : ℕ)
      → Holds pushed r
      → i + n ≡ r.count
      → to_array_from n i r ≡ drop (length pushed - r.count + i) pushed
  unfolding to_array_from
  to_array_from-Holds pushed r zero i h e =
      sym (drop_all pushed (length pushed - r.count + i) (omega (arith, h.counted, e)))
  to_array_from-Holds pushed r (suc n) i h e =
      let j = length pushed - r.count + i in
      let (x, found) = get_elem?-found pushed j (omega (arith, h.counted, e)) in
      let next : j + 1 ≡ suc j = omega arith in
      let step : length pushed - r.count + (i + 1) ≡ suc j = omega arith in
      rw (at-Holds pushed r i h (omega (arith, e)), found)
        (ap (λ xs. x ∷ xs)
            (to_array_from-Holds pushed r n (i + 1) h (omega (arith, e))
              ∙ ap (λ k. drop k pushed) step)
          ∙ sym (drop_next pushed j x found))

  unfoldable pub push_all : List V → RingBuffer V → RingBuffer V
  push_all [] r = r
  push_all (v ∷ vs) r = push_all vs (push v r).1

  capacity-push_all : (vs : List V) (r : RingBuffer V) → (push_all vs r).capacity ≡ r.capacity
  unfolding push_all push
  capacity-push_all [] r = refl
  capacity-push_all (v ∷ vs) r = capacity-push_all vs (push v r).1

  push_all-Holds :
      (pushed vs : List V) (r : RingBuffer V)
      → Holds pushed r
      → Holds (pushed ++ vs) (push_all vs r)
  unfolding push_all
  push_all-Holds pushed [] r h = rw (append-nil pushed) h
  push_all-Holds pushed (v ∷ vs) r h =
      rw (← append_assoc pushed (v ∷ []) vs)
        (push_all-Holds (pushed ++ (v ∷ [])) vs (push v r).1 (push-Holds pushed v r h))

  -- What a window of the last `capacity` values promises.
  pub record IsWindow (capacity : ℕ) (vs : List V) (r : RingBuffer V) : Type 0 where
    pub contents : to_array r ≡ last_n capacity vs
    pub newest : last r ≡ get_elem? vs (length vs - 1)
    pub evicts :
        (v : V)
        → (push v r).0
          ≡ (if leb capacity (length vs) then get_elem? vs (length vs - capacity) else none)

  Holds-IsWindow : (vs : List V) (r : RingBuffer V) → Holds vs r → IsWindow r.capacity vs r
  unfolding to_array last push
  Holds-IsWindow vs r h =
      let n = length vs in
      let c = r.capacity in
      record {
        contents =
            to_array_from-Holds vs r r.count 0 h (omega arith)
            ∙ ap (λ k. drop k vs) (omega (arith, h.counted));
        newest = elim (Bool-cases (n == 0)) [
          | inl e ↦
              let empty : r.count == 0 ≡ true = ground (arith, h.counted, e) in
              let nil : get_elem? vs (n - 1) ≡ none = absent vs (n - 1) (ground (arith, e)) in
              rw (empty, nil) refl
          | inr e ↦
              let some_held : r.count == 0 ≡ false = ground (arith, h.counted, h.positive, e) in
              let place : (r.head + c - 1) % c ≡ (n - 1) % c =
                last_slot c n r.head h.positive h.head_at (ground (arith, e)) in
              rw (some_held, place)
                (h.kept (n - 1) (ground (arith, e)) (ground (arith, e, h.positive)))
        ];
        evicts = λ v. elim (Bool-cases (leb c n)) [
          | inl e ↦
              let full : r.count == c ≡ true = ground (arith, h.counted, e) in
              let place : n % c ≡ (n - c) % c = mod-eq-sub-mod (ground (arith, e)) in
              rw (full, e, h.head_at, place)
                (h.kept (n - c) (ground (arith, h.positive, e)) (ground (arith, e)))
          | inr e ↦
              let not_full : r.count == c ≡ false = ground (arith, h.counted, e) in
              rw (not_full, e) refl
        ];
      }

  -- The buffer is the window of the last `capacity` values: whatever has been pushed into a new
  -- buffer, reading it out gives the last `capacity` values, oldest first; its last value is the
  -- one pushed last; and the next push puts out the value pushed `capacity` pushes before, once
  -- there is one, and nothing until then.
  pub push_all-IsWindow :
      (capacity : ℕ) (nought : V) (vs : List V) (r : RingBuffer V)
      → new_ring capacity nought ≡ some r
      → IsWindow capacity vs (push_all vs r)
  unfolding new_ring
  push_all-IsWindow capacity nought vs r h = elim (Bool-cases (capacity == 0)) [
    | inl e ↦ ground (arith, h, e)
    | inr e ↦
        let (s, made, holds, size) = new_ring-Holds capacity nought (ground (arith, e)) in
        let same : s ≡ r = ground (arith, made, h) in
        let size' : (push_all vs s).capacity ≡ capacity = capacity-push_all vs s ∙ size in
        rw (← same) (
          subst (λ k. IsWindow k vs (push_all vs s)) size'
            (Holds-IsWindow vs (push_all vs s) (push_all-Holds [] vs s holds)))
  ]
