-- ===== src/Core/Bus/Subjects.antt =====
-- What a pattern means, and who is called.
use ztrade.Prelude.{
  ◌≡◌, refl, sym, ◌∙◌, ◌↔◌, inl, inr, Bool, true, false, List, [], ◌∷◌, ◌++◌, arith, Bool-cases,
  codes,
}
use ztrade.Prelude.Text.{Text, same_text, same_text_iff}
use mathlib.Core.List.{append-nil, append_assoc}
use ztrade.Core.Bus.{
  split_tokens, match_tokens, subject_matches, Subscribed, InProcessBus, Delivery, deliver, publish,
  targets,
}

-- A pattern and a subject, by their tokens: `>` takes all that is left, nothing included, `*` takes
-- one token, and any token takes itself.
pub data Matches : List Text → List Text → Type 0 where
  done : Matches [] []
  tail : (p s : List Text) → Matches (codes ">" ∷ p) s
  any : (x : Text) {p s : List Text} → Matches p s → Matches (codes "*" ∷ p) (x ∷ s)
  same : (x : Text) {p s : List Text} → Matches p s → Matches (x ∷ p) (x ∷ s)

Matches-match_tokens : {p s : List Text} → Matches p s → match_tokens p s ≡ true
Matches-match_tokens done = refl
Matches-match_tokens (tail p []) = refl
Matches-match_tokens (tail p (x ∷ s)) = refl
Matches-match_tokens (any x m) = Matches-match_tokens m
Matches-match_tokens (same x {p} {s} m) = ground (arith, Matches-match_tokens m, same_text_iff x x)

match_tokens-Matches : (p s : List Text) → match_tokens p s ≡ true → Matches p s
match_tokens-Matches [] [] h = done
match_tokens-Matches [] (x ∷ s) h = cc
match_tokens-Matches (t ∷ p) [] h = rw ((same_text_iff t (codes ">")).0 h) (tail p [])
match_tokens-Matches (t ∷ p) (x ∷ s) h = elim (Bool-cases (same_text t (codes ">"))) [
  | inl e ↦ rw ((same_text_iff t (codes ">")).0 e) (tail p (x ∷ s))
  | inr e ↦ elim (Bool-cases (same_text t (codes "*"))) [
    | inl a ↦
        let rest : match_tokens p s ≡ true = ground (arith, h) in
        rw ((same_text_iff t (codes "*")).0 a) (any x (match_tokens-Matches p s rest))
    | inr a ↦
        let e' : same_text t x ≡ true = ground (arith, h) in
        let rest : match_tokens p s ≡ true = ground (arith, h) in
        rw ((same_text_iff t x).0 e') (same x (match_tokens-Matches p s rest))
  ]
]

-- `subjectMatches` decides this meaning of patterns, for every pattern and every subject: `>`, wherever
-- it stands, takes all that is left, also nothing, which is not so in NATS; `*` takes one token, and
-- any other token takes itself.
pub subject_matches-iff-Matches :
    (pattern subject : Text)
    → (subject_matches pattern subject ≡ true)
      ↔ Matches (split_tokens pattern) (split_tokens subject)
unfolding subject_matches
subject_matches-iff-Matches pattern subject =
    (match_tokens-Matches (split_tokens pattern) (split_tokens subject), Matches-match_tokens)

abbrev pub handlers_of : {H : Type 0} → List (Subscribed H) → List H
handlers_of [] = []
handlers_of (s ∷ subs) = s.handler ∷ handlers_of subs

module _ {H W M : Type 0}
    (run : H → M → Text → W × InProcessBus H → (W × InProcessBus H) × Bool) where
  called-deliver :
      (subs : List (Subscribed H)) (message : M) (subject : Text) (d : Delivery H W)
      → (deliver run subs message subject d).called ≡ d.called ++ handlers_of subs
  unfolding deliver
  called-deliver [] message subject d = sym (append-nil d.called)
  called-deliver (s ∷ subs) message subject d =
      called-deliver subs message subject _
      ∙ append_assoc d.called (s.handler ∷ []) (handlers_of subs)

  -- An open bus calls exactly the handlers whose patterns matched when the message was published,
  -- each once and in the order of subscription, whatever the handlers do: one that throws,
  -- subscribes, unsubscribes another or closes the bus keeps none of them from being called.
  pub called-publish :
      (subject : Text) (message : M) (w : W) (bus : InProcessBus H)
      → bus.closed ≡ false
      → (publish run subject message (w, bus)).called
        ≡ handlers_of (targets subject bus.subscriptions)
  unfolding publish
  called-publish subject message w bus h =
      rw h (called-deliver (targets subject bus.subscriptions) message subject _)
