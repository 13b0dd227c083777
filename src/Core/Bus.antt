-- ===== src/Core/Bus.antt =====
-- packages/core/src/bus.ts: subjects and the in-process bus. A handler is a function on the state of
-- the program, which holds the bus too, so it may subscribe, unsubscribe and close while a message is
-- delivered; it returns whether it threw.
pub mod Subjects
use ztrade.Prelude.{ℕ, ◌+◌, Bool, true, false, not, List, [], ◌∷◌, ◌++◌, ◌==◌, if◌then◌else◌, codes}
use ztrade.Prelude.Text.{Text, same_text}

abbrev glue : ℕ → List Text → List Text
glue c [] = (c ∷ []) ∷ []
glue c (token ∷ tokens) = (c ∷ token) ∷ tokens

-- `subject.split(".")`
abbrev pub split_tokens : Text → List Text
split_tokens [] = [] ∷ []
split_tokens (c ∷ text) = if c == b'.' then [] ∷ split_tokens text else glue c (split_tokens text)

abbrev is_tail : Text → Bool
is_tail token = same_text token (codes ">")

abbrev is_any : Text → Bool
is_any token = same_text token (codes "*")

-- The loop of `subjectMatches`, on the tokens from `i` on.
abbrev pub match_tokens : List Text → List Text → Bool
match_tokens [] [] = true
match_tokens [] (x ∷ s) = false
match_tokens (token ∷ p) [] = is_tail token
match_tokens (token ∷ p) (x ∷ s) =
    let rest = match_tokens p s in
    if is_tail token
    then true
    else if is_any token
    then rest
    else if not (same_text token x)
    then false
    else rest

unfoldable pub subject_matches : Text → Text → Bool
subject_matches pattern subject = match_tokens (split_tokens pattern) (split_tokens subject)

-- An entry of `subscriptions`; the number stands for the identity of the object.
pub record Subscribed (H : Type 0) : Type 0 where
  pub entry : ℕ
  pub pattern_of : Text
  pub handler : H

pub record InProcessBus (H : Type 0) : Type 0 where
  pub subscriptions : List (Subscribed H)
  pub closed : Bool
  pub next_entry : ℕ

module _ {H : Type 0} where
  abbrev pub new_bus : InProcessBus H
  new_bus = record { subscriptions = []; closed = false; next_entry = 0 }

  unfoldable pub subscribe : Text → H → InProcessBus H → InProcessBus H × ℕ
  subscribe pattern handler bus = (
    record bus {
      subscriptions =
          bus.subscriptions
          ++ (record { entry = bus.next_entry; pattern_of = pattern; handler = handler } ∷ []);
      next_entry = bus.next_entry + 1;
    },
    bus.next_entry,
  )

  -- `indexOf` and `splice`
  abbrev pub remove_entry : ℕ → List (Subscribed H) → List (Subscribed H)
  remove_entry n [] = []
  remove_entry n (s ∷ subs) = if s.entry == n then subs else s ∷ remove_entry n subs

  unfoldable pub unsubscribe : ℕ → InProcessBus H → InProcessBus H
  unsubscribe n bus = record bus { subscriptions = remove_entry n bus.subscriptions }

  unfoldable pub close : InProcessBus H → InProcessBus H
  close bus = record bus { closed = true; subscriptions = [] }

  -- `subscriptions.filter(…)`
  abbrev pub targets : Text → List (Subscribed H) → List (Subscribed H)
  targets subject [] = []
  targets subject (s ∷ subs) =
      if subject_matches s.pattern_of subject
      then s ∷ targets subject subs
      else targets subject subs

-- What one publication does: the state that it leaves, the handlers that were called, and how many
-- of them threw.
pub record Delivery (H W : Type 0) : Type 0 where
  pub state : W × InProcessBus H
  pub called : List H
  pub errors : ℕ

module _ {H W M : Type 0}
    (run : H → M → Text → W × InProcessBus H → (W × InProcessBus H) × Bool) where
  -- The loop of `publish`; `onHandlerError` is called for each handler that throws.
  deliver : List (Subscribed H) → M → Text → Delivery H W → Delivery H W
  deliver [] message subject d = d
  deliver (s ∷ subs) message subject d =
      let (state, threw) = run s.handler message subject d.state in
      deliver subs message subject (record {
        state = state;
        called = d.called ++ (s.handler ∷ []);
        errors = if threw then d.errors + 1 else d.errors;
      })

  unfoldable pub publish : Text → M → W × InProcessBus H → Delivery H W
  unfolding deliver
  publish subject message (w, bus) =
      let start : Delivery H W = record { state = (w, bus); called = []; errors = 0 } in
      if bus.closed
      then start
      else deliver (targets subject bus.subscriptions) message subject start
