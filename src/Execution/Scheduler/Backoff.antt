-- ===== src/Execution/Scheduler/Backoff.antt =====
-- What a back-off guarantees, and when it ends.
use ztrade.Prelude.{
  ℕ, ◌+◌, ◌-◌, ◌*◌, ◌^◌, String, ◌≡◌, refl, ap, ◌∙◌, ◌≢◌, true, false, Option, none, some, List, [],
  ◌∷◌, arith, All, min,
}
use ztrade.Prelude.Int.{ℤ, pos, ltb_ℤ, ◌+ℤ◌, ◌<ℤ◌}
use ztrade.Prelude.Double.{Double}
use ztrade.Prelude.Table.{Table, string_eq, lookup-insert}
use ztrade.Execution.Scheduler.{
  RateScheduler, until, delay, observe_success, observe_rejection, can_send, take_token, wait_ms,
  observe_headers,
}

-- A call of the scheduler.
pub data SchedulerCall : Type 0 where
  sending taking waiting : String → ℤ → SchedulerCall
  headers_seen : String → Table String String → SchedulerCall
  rejected : String → (code : ℕ) → ℤ → SchedulerCall
  succeeded : SchedulerCall

abbrev kept {ℓ} :
    {A : Type ℓ} {F : Type 0} → RateScheduler F → Option (A × RateScheduler F) → RateScheduler F
kept s none = s
kept s (some r) = r.1

abbrev kept_state : {F : Type 0} → RateScheduler F → Option (RateScheduler F) → RateScheduler F
kept_state s none = s
kept_state s (some r) = r

-- No further rejection of the category.
abbrev pub Spares : String → SchedulerCall → Type 0
Spares category (rejected c code now) = c ≢ category
Spares category _ = Unit

module _ {F : Type 0} ⦃d : Double F⦄ (to_number : Option String → F) where
  -- The scheduler after a call; one that throws leaves it as it was.
  abbrev pub call_scheduler : SchedulerCall → RateScheduler F → RateScheduler F
  call_scheduler (sending c now) s = kept s (can_send c now s)
  call_scheduler (taking c now) s = kept s (take_token c now s)
  call_scheduler (waiting c now) s = kept s (wait_ms c now s)
  call_scheduler (headers_seen c headers) s = kept_state s (observe_headers to_number c headers s)
  call_scheduler (rejected c code now) s = (observe_rejection c code now s).1
  call_scheduler succeeded s = observe_success s

  unfoldable pub calls_scheduler : List SchedulerCall → RateScheduler F → RateScheduler F
  calls_scheduler [] s = s
  calls_scheduler (c ∷ calls) s = calls_scheduler calls (call_scheduler c s)

  call-until :
      (category : String) (c : SchedulerCall) (s : RateScheduler F)
      → Spares category c
      → until category (call_scheduler c s) ≡ until category s
  unfolding can_send take_token wait_ms observe_headers observe_rejection observe_success
  call-until category (sending c now) s h = ground arith
  call-until category (taking c now) s h = ground arith
  call-until category (waiting c now) s h = ground arith
  call-until category (headers_seen c headers) s h = ground arith
  call-until category (rejected c code now) s h = ground (
    arith,
    lookup-insert c category (now +ℤ pos (delay (s.limit_hits + 1))) s.backoff_until,
    string_eq.beq_iff c category,
  )
  call-until category succeeded s h = refl

  calls-until :
      (category : String) (calls : List SchedulerCall) (s : RateScheduler F)
      → All (Spares category) calls
      → until category (calls_scheduler calls s) ≡ until category s
  unfolding calls_scheduler
  calls-until category [] s h = refl
  calls-until category (c ∷ calls) s h =
      calls-until category calls (call_scheduler c s) h.1 ∙ call-until category c s h.0

  pub shut_in_backoff :
      (category : String) (code : ℕ) (now at : ℤ) (calls : List SchedulerCall)
      (s s' : RateScheduler F)
      → observe_rejection category code now s ≡ (true, s')
      → All (Spares category) calls
      → at <ℤ now +ℤ pos (min 30000 (500 * 2 ^ s.limit_hits))
      → let later = calls_scheduler calls s' in
        (take_token category at later ≡ some (false, later))
        × (can_send category at later ≡ some (false, later))
  unfolding observe_rejection take_token can_send
  shut_in_backoff category code now at calls s s' h spared early =
      let later = calls_scheduler calls s' in
      let hits : s.limit_hits + 1 - 1 ≡ s.limit_hits = omega arith in
      let raised : until category s' ≡ now +ℤ pos (delay (s.limit_hits + 1)) = ground (
        arith,
        h,
        string_eq.beq_iff category category,
        lookup-insert category category (now +ℤ pos (delay (s.limit_hits + 1))) s.backoff_until,
      ) in
      let set : until category s' ≡ now +ℤ pos (min 30000 (500 * 2 ^ s.limit_hits)) =
        raised ∙ ap (λ (t : ℕ). now +ℤ pos (min 30000 (500 * 2 ^ t))) hits in
      let shut : until category later ≡ now +ℤ pos (min 30000 (500 * 2 ^ s.limit_hits)) =
        calls-until category calls s' spared ∙ set in
      let test : ltb_ℤ at (until category later) ≡ true = rw shut (ground (arith, early)) in
      rw test (refl, refl)
