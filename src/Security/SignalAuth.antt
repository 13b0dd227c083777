-- ===== src/Security/SignalAuth.antt =====
-- packages/security/src/signalAuth.ts: the verification of an external signal, and the store of
-- nonces. Times are whole milliseconds; `none` stands for a number that is not finite, or for a
-- field of another type than the declared one. The HMAC is a parameter: it takes the secret, the
-- time, the nonce and the body, which the signed text joins by dots. A clock reading is an argument.
pub mod Replay
use ztrade.Prelude.{String, Bool, true, false, not, Option, none, some, [], ◌∷◌, if◌then◌else◌}
use ztrade.Prelude.Int.{ℤ, pos, ◌+ℤ◌, ◌-ℤ◌, ltb_ℤ}
use ztrade.Prelude.Table.{Table, string_eq, lookup, insert, erase}

pub record SignedSignal : Type 0 where
  pub body : Option String
  pub signature : Option String
  pub timestamp : Option ℤ
  pub nonce : Option String

pub data Rejection : Type 0 where
  bad_signature expired future replay malformed : Rejection

pub data SignalVerifyResult : Type 0 where
  accepted : SignalVerifyResult
  rejected : Rejection → SignalVerifyResult

-- `MemoryNonceStore` by its map from a nonce to its expiry.
abbrev pub NonceStore : Type 0
NonceStore = Table String ℤ

-- The result of `seen` and the store that it leaves, by what the map has under the nonce.
abbrev seen_entry : String → ℤ → NonceStore → Option ℤ → Bool × NonceStore
seen_entry nonce now store none = (false, store)
seen_entry nonce now store (some expiry) =
    if ltb_ℤ expiry now then (false, erase nonce store) else (true, store)

unfoldable pub seen : String → ℤ → NonceStore → Bool × NonceStore
seen nonce now store = seen_entry nonce now store (lookup nonce store)

unfoldable pub prune : ℤ → NonceStore → NonceStore
prune now [] = []
prune now ((nonce, expiry) ∷ store) =
    if ltb_ℤ expiry now then prune now store else (nonce, expiry) ∷ prune now store

unfoldable pub remember : String → ℤ → ℤ → NonceStore → NonceStore
unfolding prune
remember nonce expires_at now store = insert nonce expires_at (prune now store)

-- `Buffer.length` and `timingSafeEqual` decide equality of the two texts.
abbrev safe_equal : String → String → Bool
safe_equal a b = string_eq.beq a b

-- The clock as it is read while one signal is verified: by the verifier, by `seen`, by `prune`.
pub record Readings : Type 0 where
  pub now : ℤ
  pub seen_at : ℤ
  pub prune_at : ℤ

pub record Verifier : Type 0 where
  pub secret : String
  pub window_ms : ℤ
  pub future_tolerance_ms : ℤ

module _ (hmac : String → ℤ → String → String → String) (verifier : Verifier) where
  open verifier use {secret, window_ms, future_tolerance_ms}

  -- After the signature: the nonce is looked up, and burnt if it is new.
  abbrev check_nonce : String → ℤ → Readings → Bool × NonceStore → SignalVerifyResult × NonceStore
  check_nonce nonce timestamp r (true, store) = (rejected replay, store)
  check_nonce nonce timestamp r (false, store) =
      (accepted, remember nonce (timestamp +ℤ window_ms) r.prune_at store)

  -- `verify` on a well-formed signal.
  verify_fields :
      String → String → ℤ → String → Readings → NonceStore → SignalVerifyResult × NonceStore
  verify_fields body signature timestamp nonce r store =
      if ltb_ℤ (r.now +ℤ future_tolerance_ms) timestamp
      then (rejected future, store)
      else if ltb_ℤ timestamp (r.now -ℤ window_ms)
      then (rejected expired, store)
      else if not (safe_equal (hmac secret timestamp nonce body) signature)
      then (rejected bad_signature, store)
      else check_nonce nonce timestamp r (seen nonce r.seen_at store)

  -- The first guard, then the rest; an empty nonce is malformed.
  verify_options :
      Option String
      → Option String
      → Option ℤ
      → Option String
      → Readings
      → NonceStore
      → SignalVerifyResult × NonceStore
  unfolding verify_fields
  verify_options (some body) (some signature) (some timestamp) (some nonce) r store =
      if string_eq.beq nonce ""
      then (rejected malformed, store)
      else verify_fields body signature timestamp nonce r store
  verify_options _ _ _ _ r store = (rejected malformed, store)

  unfoldable pub verify : SignedSignal → Readings → NonceStore → SignalVerifyResult × NonceStore
  unfolding verify_options
  verify signal r store =
      verify_options signal.body signal.signature signal.timestamp signal.nonce r store
