-- ===== src/Security/SignalAuth/Replay.antt =====
-- A signal fires once.
use ztrade.Prelude.{
  String, ◌≡◌, refl, ◌≢◌, ◌⊎◌, inl, inr, Bool, true, false, some, List, [], ◌∷◌, arith,
  Option-cases,
}
use ztrade.Prelude.Int.{ℤ, pos, ◌+ℤ◌, ◌-ℤ◌, ◌≤ℤ◌, ◌<ℤ◌, +ℤ_parts, -ℤ_parts}
use ztrade.Prelude.Table.{string_eq, lookup, lookup-insert, lookup-erase, erase}
use ztrade.Security.SignalAuth.{
  NonceStore, seen, prune, remember, Readings, SignedSignal, Verifier, verify, check_nonce,
  accepted, Rejection, SignalVerifyResult, replay, rejected,
}

-- The nonce is remembered with its expiry, or that expiry has passed.
abbrev pub Burnt : String → ℤ → ℤ → NonceStore → Type 0
Burnt nonce expiry now store = (lookup nonce store ≡ some expiry) ⊎ (expiry <ℤ now)

prune-Burnt :
    (nonce : String) (expiry now : ℤ) (store : NonceStore)
    → lookup nonce store ≡ some expiry
    → Burnt nonce expiry now (prune now store)
unfolding prune
prune-Burnt nonce expiry now [] h = cc
prune-Burnt nonce expiry now ((j, e) ∷ store) h = ground (arith, prune-Burnt nonce expiry now store)

remember-Burnt :
    (nonce j : String) (expiry e now : ℤ) (store : NonceStore)
    → Burnt nonce expiry now store
    → (string_eq.beq j nonce ≡ true → expiry <ℤ now)
    → Burnt nonce expiry now (remember j e now store)
unfolding remember
remember-Burnt nonce j expiry e now store h k =
    ground (arith, lookup-insert j nonce e (prune now store), prune-Burnt nonce expiry now store)

seen-Burnt :
    (nonce j : String) (expiry now : ℤ) (store : NonceStore)
    → Burnt nonce expiry now store
    → Burnt nonce expiry now (seen j now store).1
      × ((seen j now store).0 ≡ false → string_eq.beq j nonce ≡ true → expiry <ℤ now)
unfolding seen
seen-Burnt nonce j expiry now store h = elim (Option-cases (lookup j store)) [
  | inl unknown ↦ ground (arith, string_eq.beq_iff j nonce)
  | inr (e, known) ↦ ground (arith, string_eq.beq_iff j nonce, lookup-erase j nonce store)
]

-- A clock that stands still while one signal is verified.
abbrev pub steady : ℤ → Readings
steady t = record { now = t; seen_at = t; prune_at = t }

-- Readings that never go back, from `first` over those of the calls to `last`.
abbrev pub IsAscending : ℤ → List (SignedSignal × ℤ) → ℤ → Type 0
IsAscending first [] last = first ≤ℤ last
IsAscending first ((signal, t) ∷ calls) last = (first ≤ℤ t) × IsAscending t calls last

module _ (hmac : String → ℤ → String → String → String) (verifier : Verifier) where
  -- The store after a row of calls.
  unfoldable pub verify_all : List (SignedSignal × ℤ) → NonceStore → NonceStore
  verify_all [] store = store
  verify_all ((signal, t) ∷ calls) store =
      verify_all calls (verify hmac verifier signal (steady t) store).1

  check-Burnt :
      (nonce j : String) (timestamp expiry t : ℤ) (result : Bool × NonceStore)
      → Burnt nonce expiry t result.1
      → (result.0 ≡ false → string_eq.beq j nonce ≡ true → expiry <ℤ t)
      → Burnt nonce expiry t (check_nonce hmac verifier j timestamp (steady t) result).1
  check-Burnt nonce j timestamp expiry t (true, store) h k = h
  check-Burnt nonce j timestamp expiry t (false, store) h k =
      remember-Burnt nonce j expiry (timestamp +ℤ verifier.window_ms) t store h (k refl)

  verify-Burnt :
      (nonce : String) (expiry t : ℤ) (signal : SignedSignal) (store : NonceStore)
      → Burnt nonce expiry t store
      → Burnt nonce expiry t (verify hmac verifier signal (steady t) store).1
  unfolding verify
  verify-Burnt nonce expiry t signal store h = elim (Option-cases signal.nonce) [
    | inl missing ↦ ground arith
    | inr (j, given) ↦ elim (Option-cases signal.timestamp) [
      | inl missing ↦ ground arith
      | inr (at, timed) ↦ ground (
        arith,
        check-Burnt nonce j at expiry t (seen j t store) (seen-Burnt nonce j expiry t store h).0
            (seen-Burnt nonce j expiry t store h).1,
      )
    ]
  ]

  verify_all-Burnt :
      (nonce : String) (expiry first last : ℤ) (calls : List (SignedSignal × ℤ))
      (store : NonceStore)
      → IsAscending first calls last
      → Burnt nonce expiry first store
      → Burnt nonce expiry last (verify_all calls store)
  unfolding verify_all
  verify_all-Burnt nonce expiry first last [] store a (inl h) = inl h
  verify_all-Burnt nonce expiry first last [] store a (inr h) = inr (omega arith)
  verify_all-Burnt nonce expiry first last ((signal, t) ∷ calls) store a h =
      let later : Burnt nonce expiry t store = elim h [
        | inl e ↦ inl e
        | inr e ↦ inr (omega arith)
      ] in
      verify_all-Burnt nonce expiry t last calls _ a.1
        (verify-Burnt nonce expiry t signal store later)

  -- A signal with every field of its declared type.
  abbrev pub signal_of : String → String → ℤ → String → SignedSignal
  signal_of body signature timestamp nonce = record {
    body = some body;
    signature = some signature;
    timestamp = some timestamp;
    nonce = some nonce;
  }

  accepted-Burnt :
      (body signature nonce : String) (at t : ℤ) (store store' : NonceStore)
      → verify hmac verifier (signal_of body signature at nonce) (steady t) store
        ≡ (accepted, store')
      → Burnt nonce (at +ℤ verifier.window_ms) t store'
  unfolding verify remember seen
  accepted-Burnt body signature nonce at t store store' h =
      elim (Option-cases (lookup nonce store)) [
        | inl unknown ↦ ground (
          arith,
          string_eq.beq_iff nonce nonce,
          lookup-insert nonce nonce (at +ℤ verifier.window_ms) (prune t store),
        )
        | inr (e, known) ↦ ground (
          arith,
          string_eq.beq_iff nonce nonce,
          lookup-insert nonce nonce (at +ℤ verifier.window_ms) (prune t (erase nonce store)),
        )
      ]

  Burnt-rejected :
      (body signature nonce : String) (at t : ℤ) (store : NonceStore)
      → Burnt nonce (at +ℤ verifier.window_ms) t store
      → (verify hmac verifier (signal_of body signature at nonce) (steady t) store).0 ≢ accepted
  unfolding verify seen
  Burnt-rejected body signature nonce at t store (inl h) e =
      ground (arith, +ℤ_parts at verifier.window_ms, -ℤ_parts t verifier.window_ms)
  Burnt-rejected body signature nonce at t store (inr h) e =
      ground (arith, +ℤ_parts at verifier.window_ms, -ℤ_parts t verifier.window_ms)

  -- A signal that has been accepted is never accepted again: not after any other calls in between,
  -- genuine or forged, with the same nonce or others, and at no later time, if the clock does not
  -- go back between calls and stands still within one.
  pub accepted_once :
      (body signature nonce : String) (at first last : ℤ) (calls : List (SignedSignal × ℤ))
      (store store' : NonceStore)
      → verify hmac verifier (signal_of body signature at nonce) (steady first) store
        ≡ (accepted, store')
      → IsAscending first calls last
      → (verify hmac verifier
          (signal_of body signature at nonce)
          (steady last)
          (verify_all calls store')).0
        ≢ accepted
  accepted_once body signature nonce at first last calls store store' h a =
      Burnt-rejected body signature nonce at last (verify_all calls store') (
        verify_all-Burnt nonce (at +ℤ verifier.window_ms) first last calls store' a
          (accepted-Burnt body signature nonce at first store store' h))

  -- Why the clock has to stand still: at the very end of its window a signal that was accepted
  -- before is accepted again, if the store reads the clock later than the verifier and so takes its
  -- nonce for expired.
  pub replay_at_edge :
      (body nonce : String) (at : ℤ) (r : Readings) (store : NonceStore)
      → string_eq.beq nonce "" ≡ false
      → lookup nonce store ≡ some (at +ℤ verifier.window_ms)
      → r.now ≡ at +ℤ verifier.window_ms
      → pos 0 ≤ℤ verifier.window_ms
      → pos 0 ≤ℤ verifier.future_tolerance_ms
      → r.now <ℤ r.seen_at
      → (verify hmac verifier
          (signal_of body (hmac verifier.secret at nonce body) at nonce)
          r
          store).0
        ≡ accepted
  unfolding verify seen
  replay_at_edge body nonce at r store named known now w f late = ground (
    arith,
    +ℤ_parts at verifier.window_ms,
    -ℤ_parts r.now verifier.window_ms,
    +ℤ_parts r.now verifier.future_tolerance_ms,
    string_eq.beq_iff (hmac verifier.secret at nonce body) (hmac verifier.secret at nonce body),
  )

  -- What `verify` promises: acceptance means that the signature is the HMAC of these very fields
  -- under the secret, the time is within the window and the tolerance, and the nonce is not empty
  -- and not held by the store; and a signal that is malformed, early, late or wrongly signed leaves
  -- the store as it was.
  abbrev Promise : Rejection → NonceStore → NonceStore → Type 0
  Promise replay store store' = Unit
  Promise _ store store' = store' ≡ store

  abbrev pub IsHonest :
      String
      → String
      → String
      → ℤ
      → Readings
      → NonceStore
      → SignalVerifyResult × NonceStore
      → Type 0
  IsHonest body signature nonce at r store (accepted, store') =
      (hmac verifier.secret at nonce body ≡ signature)
      × (at ≤ℤ r.now +ℤ verifier.future_tolerance_ms)
      × (r.now -ℤ verifier.window_ms ≤ℤ at)
      × (nonce ≢ "")
      × ((seen nonce r.seen_at store).0 ≡ false)
  IsHonest body signature nonce at r store (rejected why, store') = Promise why store store'

  pub verify-IsHonest :
      (body signature nonce : String) (at : ℤ) (r : Readings) (store : NonceStore)
      → IsHonest body signature nonce at r store
          (verify hmac verifier (signal_of body signature at nonce) r store)
  unfolding verify
  verify-IsHonest body signature nonce at r store = ground (
    arith,
    string_eq.beq_iff (hmac verifier.secret at nonce body) signature,
    string_eq.beq_iff nonce "",
  )
