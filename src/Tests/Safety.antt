-- ===== src/Tests/Safety.antt =====
-- The risk gate, the audit chain, signals and key permissions, on small data.
use ztrade.Prelude.{
  ℕ, ◌≤◌, String, ◌≡◌, refl, ◌≢◌, ◌↔◌, ◌⊎◌, false, Option, none, some, List, [], ◌∷◌, ◌++◌, arith,
  length, codes,
}
use ztrade.Prelude.Int.{ℤ, pos, negsuc, ◌+ℤ◌, ◌-ℤ◌, ◌*ℤ◌}
use ztrade.Prelude.Double.{Units, whole_units, whole_units-IsOrdered}
use ztrade.Core.Intent.{OrderIntent, market, OrderSide}
use ztrade.Risk.Breaker.{degraded, halt, stated, new_breaker, escalate}
use ztrade.Risk.Breaker.History.{Call, escalating}
use ztrade.Risk.Engine.{
  RiskLimits, PortfolioState, RiskContext, RiskEngine, new_engine, check, drop_before,
  total_notional, correlated_notional, allowed,
}
use ztrade.Risk.Engine.Limits.{Passes, allowed-WithinCaps}
use ztrade.Risk.Engine.Rate.{Checks, check_all, count_since, allowed_in_window}
use ztrade.Security.AuditChain.{
  Canonical, AuditEntryInput, ChainedAuditEntry, genesis, head, append, verify_chain, hash_entry,
  verify_from,
}
use ztrade.Security.AuditChain.Evidence.{append_all}
use ztrade.Security.AuditChain.Tamper.{append_inj, Collision, IsHashing, head_commits}
use ztrade.Security.SignalAuth.{Verifier, SignedSignal, verify, accepted, Readings, seen, remember}
use ztrade.Security.SignalAuth.Replay.{signal_of, steady, verify_all, accepted_once, replay_at_edge}
use ztrade.Security.KeyScope.{
  ApiKeyInfo, evaluate_key_scope, parse_bybit_permissions, withdrawal_enabled,
}
use ztrade.Security.KeyScope.Withdrawal.{Reported, evaluate-withdrawal}
use ztrade.Prelude.Text.{Text}

abbrev units : ℕ → Units
units n = some (pos n)

abbrev reports : List (Call Units)
reports =
    escalating degraded (stated "stale feed") (pos 1)
    ∷ escalating halt (stated "loss") (pos 2)
    ∷ escalating degraded (stated "stale feed") (pos 3)
    ∷ []

abbrev limits : RiskLimits Units
limits = record {
  max_position_notional = units 1000;
  max_aggregate_notional = units 2000;
  max_leverage = units 3;
  max_daily_loss_pct = units 1;
  max_drawdown_pct = units 1;
  max_correlated_notional = units 1500;
  correlation_threshold = units 1;
  max_orders_per_window = 2;
  rate_window_ms = pos 1000;
  max_price_deviation_pct = units 1;
}

abbrev portfolio : PortfolioState Units
portfolio = record {
  positions = ("BTCUSDT", units 2) ∷ ("ETHUSDT", units 3) ∷ [];
  marks = ("BTCUSDT", units 100) ∷ ("ETHUSDT", units 10) ∷ [];
  equity = units 1000;
  day_start_equity = units 1000;
  high_water_mark = units 1000;
  realised_pnl_today = units 0;
  correlations = [];
}

abbrev context : ℕ → RiskContext Units
context t = record { portfolio = portfolio; mark = units 100; at = pos t }

abbrev intent : OrderIntent Units
intent = record {
  key = "k";
  symbol = "BTCUSDT";
  side = OrderSide.buy;
  qty = units 3;
  style = market;
  reduce_only = false;
  max_slippage_bps = none;
  stop_loss = none;
  take_profit = none;
  rationale = "r";
}

allowed-WithinCaps_example :
    ((check intent (context 5) (new_engine limits)).0 ≡ allowed intent)
    ↔ Passes (new_engine limits) intent (context 5)
unfolding new_engine new_breaker check total_notional correlated_notional ◌+ℤ◌ ◌-ℤ◌ ◌*ℤ◌ drop_before
allowed-WithinCaps_example =
    allowed-WithinCaps whole_units-IsOrdered intent (context 5) (new_engine limits)
      (record { limits_num = (refl, refl, refl, refl); values_num = (refl, refl, refl, refl) })

-- An intent that does pass.
let_through : (check intent (context 5) (new_engine limits)).0 ≡ allowed intent
unfolding new_engine new_breaker check total_notional correlated_notional ◌+ℤ◌ ◌-ℤ◌ ◌*ℤ◌ drop_before
let_through = refl

abbrev tripped : RiskEngine Units
unfolding new_engine new_breaker escalate
tripped = record (new_engine limits) {
  circuit = (escalate halt (stated "loss") (pos 2) new_breaker).0;
}

abbrev earlier : Checks Units
earlier = (intent, context 5) ∷ []

allowed_in_window_example :
    count_since
      (pos 900 -ℤ pos 1000)
      ((check_all earlier (new_engine limits, [])).1 ++ (pos 900 ∷ []))
    ≤ 2
unfolding new_engine new_breaker check check_all total_notional correlated_notional ◌+ℤ◌ ◌-ℤ◌ ◌*ℤ◌
    drop_before
allowed_in_window_example =
    allowed_in_window limits (pos 0) earlier intent (context 900) (omega arith, omega arith) refl

abbrev verifier : Verifier
verifier = record { secret = "s"; window_ms = pos 1000; future_tolerance_ms = pos 100 }

-- A stand-in for the HMAC that shows what it signs.
abbrev echo : String → ℤ → String → String → String
echo secret at nonce body = body

abbrev others : List (SignedSignal × ℤ)
others = (signal_of echo verifier "sell" "sell" (pos 5200) "m", pos 5300) ∷ []

accepted_once_example :
    (verify echo verifier
      (signal_of echo verifier "buy" "buy" (pos 5000) "n")
      (steady (pos 5900))
      (verify_all echo verifier others (("n", pos 6000) ∷ []))).0
    ≢ accepted
unfolding verify seen remember ◌+ℤ◌ ◌-ℤ◌
accepted_once_example =
    accepted_once echo verifier "buy" "buy" "n" (pos 5000) (pos 5100) (pos 5900) others []
      (("n", pos 6000) ∷ []) refl (omega arith, omega arith)

abbrev late : Readings
late = record { now = pos 6000; seen_at = pos 6001; prune_at = pos 6001 }

replay_at_edge_example :
    (verify echo verifier
      (signal_of echo verifier "buy" "buy" (pos 5000) "n")
      late
      (("n", pos 6000) ∷ [])).0
    ≡ accepted
unfolding ◌+ℤ◌
replay_at_edge_example =
    replay_at_edge echo verifier "buy" "n" (pos 5000) late (("n", pos 6000) ∷ []) refl refl refl
      (omega arith) (omega arith) (omega arith)

abbrev info : ApiKeyInfo
info = record {
  permissions =
      some ((codes "Spot", codes "SpotTrade" ∷ []) ∷ (codes "Wallet", codes "withdraw" ∷ []) ∷ []);
  ips = none;
  read_only = some 0;
}

evaluate-withdrawal_example :
    (evaluate_key_scope (parse_bybit_permissions info) ≡ withdrawal_enabled [])
    ↔ Reported (codes "Withdraw") info.permissions
evaluate-withdrawal_example = evaluate-withdrawal info

-- Stand-ins for the digest and the printer: every text has the one digest of 64 zeros, and a printed
-- entry tells the length of each text before the text.
abbrev digest : Text → Text
unfolding genesis
digest text = genesis

abbrev print_int : ℤ → Text → Text
print_int (pos n) rest = 0 ∷ n ∷ rest
print_int (negsuc n) rest = 1 ∷ n ∷ rest

abbrev print_text : Text → Text → Text
print_text text rest = length text ∷ (text ++ rest)

abbrev print_option : Option Text → Text → Text
print_option none rest = 0 ∷ rest
print_option (some text) rest = 1 ∷ print_text text rest

abbrev print : Canonical → Text
print (seq, at, action, detail, actor, correlation) = print_int seq (
    print_int at
      (print_text action (print_text detail (print_option actor (print_option correlation [])))))

print_int_inj : (a b : ℤ) (x y : Text) → print_int a x ≡ print_int b y → (a ≡ b) × (x ≡ y)
print_int_inj (pos n) (pos m) x y h = ground arith
print_int_inj (pos n) (negsuc m) x y h = ground arith
print_int_inj (negsuc n) (pos m) x y h = ground arith
print_int_inj (negsuc n) (negsuc m) x y h = ground arith

print_text_inj : (a b x y : Text) → print_text a x ≡ print_text b y → (a ≡ b) × (x ≡ y)
print_text_inj a b x y h =
    let same_length : length a ≡ length b = ground (arith, h) in
    let same_rest : a ++ x ≡ b ++ y = ground (arith, h) in append_inj a b x y same_length same_rest

print_option_inj :
    (a b : Option Text) (x y : Text) → print_option a x ≡ print_option b y → (a ≡ b) × (x ≡ y)
print_option_inj none none x y h = ground arith
print_option_inj none (some b) x y h = ground arith
print_option_inj (some a) none x y h = ground arith
print_option_inj (some a) (some b) x y h =
    let same : print_text a x ≡ print_text b y = ground (arith, h) in
    ground (arith, print_text_inj a b x y same)

print_inj : (a b : Canonical) → print a ≡ print b → a ≡ b
print_inj (s, t, a, d, u, c) (s', t', a', d', u', c') h =
    let (es, h1) = print_int_inj s s' _ _ h in
    let (et, h2) = print_int_inj t t' _ _ h1 in
    let (ea, h3) = print_text_inj a a' _ _ h2 in
    let (ed, h4) = print_text_inj d d' _ _ h3 in
    let (eu, h5) = print_option_inj u u' _ _ h4 in
    let (ec, h6) = print_option_inj c c' _ _ h5 in rw (es, et, ea, ed, eu, ec)

hashing : IsHashing digest print
unfolding genesis
hashing = record { digest_length = λ x. refl; print_inj = print_inj }

abbrev logged : AuditEntryInput
logged = record {
  at = pos 7;
  action = codes "halt";
  detail = codes "loss";
  actor = none;
  correlation_id = some (codes "c");
}

abbrev chain : List ChainedAuditEntry
unfolding append_all append genesis hash_entry head
chain = append_all digest print [] (logged ∷ logged ∷ [])

head_commits_example : (chain ≡ chain) ⊎ Collision digest
unfolding append_all append genesis hash_entry head verify_chain verify_from
head_commits_example = head_commits digest print hashing chain chain (digest []) 2 refl refl
