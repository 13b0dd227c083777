-- ===== src/Security/KeyScope/Withdrawal.antt =====
-- The hard rule: a key that may withdraw never passes.
use ztrade.Prelude.{
  ℕ, ◌+◌, ◌≤◌, ◌≡◌, refl, ◌≢◌, ◌↔◌, ◌⊎◌, inl, inr, true, ◌||◌, Option, none, some, List, [], ◌∷◌,
  ◌++◌, arith, ◌==◌, Bool-cases, codes,
}
use ztrade.Security.KeyScope.{
  Warning, safe, withdrawal_enabled, evaluate_key_scope, has, includes, starts_with, lower_char,
  to_lower_case, ApiKeyInfo, flat_values, or_empty, parse_bybit_permissions,
}
use ztrade.Prelude.Text.{Text}

-- Two characters are one but for the case of an ASCII letter.
abbrev SameLetter : ℕ → ℕ → Type 0
SameLetter c e =
    (c ≡ e) ⊎ (((e ≡ c + 32) × (65 ≤ c) × (c ≤ 90)) ⊎ ((c ≡ e + 32) × (65 ≤ e) × (e ≤ 90)))

-- A text begins with a word, in any case.
abbrev Begins : Text → Text → Type 0
Begins [] text = Unit
Begins (c ∷ word) [] = ⊥
Begins (c ∷ word) (e ∷ text) = SameLetter c e × Begins word text

abbrev Mentions : Text → Text → Type 0
Mentions word [] = Begins word []
Mentions word (e ∷ text) = Begins word (e ∷ text) ⊎ Mentions word text

abbrev OneMentions : Text → List Text → Type 0
OneMentions word [] = ⊥
OneMentions word (p ∷ names) = Mentions word p ⊎ OneMentions word names

-- A permission of some category mentions the word.
abbrev AnyMentions : Text → List (Text × List Text) → Type 0
AnyMentions word [] = ⊥
AnyMentions word ((category, names) ∷ permissions) =
    OneMentions word names ⊎ AnyMentions word permissions

abbrev pub Reported : Text → Option (List (Text × List Text)) → Type 0
Reported word none = ⊥
Reported word (some permissions) = AnyMentions word permissions

not_safe : {ws : List Warning} (vs : List Warning) → safe ws ≢ withdrawal_enabled vs
not_safe vs h = cc

lower-SameLetter : (c e : ℕ) → ((lower_char c == lower_char e) ≡ true) ↔ SameLetter c e
lower-SameLetter c e = ground arith

starts-Begins :
    (word text : Text)
    → (starts_with (to_lower_case word) (to_lower_case text) ≡ true) ↔ Begins word text
starts-Begins [] text = (λ h. tt, λ h. refl)
starts-Begins (c ∷ word) [] = ground arith
starts-Begins (c ∷ word) (e ∷ text) = ground (arith, lower-SameLetter c e, starts-Begins word text)

includes-Mentions :
    (word text : Text)
    → (includes (to_lower_case word) (to_lower_case text) ≡ true) ↔ Mentions word text
includes-Mentions word [] = starts-Begins word []
includes-Mentions word (e ∷ text) =
    ground (arith, starts-Begins word (e ∷ text), includes-Mentions word text)

has-append : (word : Text) (xs ys : List Text) → has (xs ++ ys) word ≡ (has xs word || has ys word)
has-append word [] ys = refl
has-append word (x ∷ xs) ys = ground (arith, has-append word xs ys)

has-OneMentions : (word : Text) (flat : List Text) → (has flat word ≡ true) ↔ OneMentions word flat
has-OneMentions word [] = ground arith
has-OneMentions word (p ∷ flat) =
    ground (arith, includes-Mentions word p, has-OneMentions word flat)

has-AnyMentions :
    (word : Text) (permissions : List (Text × List Text))
    → (has (flat_values permissions) word ≡ true) ↔ AnyMentions word permissions
has-AnyMentions word [] = ground arith
has-AnyMentions word ((category, names) ∷ permissions) = ground (
  arith,
  has-append word names (flat_values permissions),
  has-OneMentions word names,
  has-AnyMentions word permissions,
)

has-Reported :
    (word : Text) (given : Option (List (Text × List Text)))
    → (has (flat_values (or_empty given)) word ≡ true) ↔ Reported word given
has-Reported word none = ground arith
has-Reported word (some permissions) = has-AnyMentions word permissions

pub evaluate-withdrawal :
    (info : ApiKeyInfo)
    → (evaluate_key_scope (parse_bybit_permissions info) ≡ withdrawal_enabled [])
      ↔ Reported (codes "Withdraw") info.permissions
unfolding evaluate_key_scope parse_bybit_permissions
evaluate-withdrawal info =
    let word = has-Reported (codes "Withdraw") info.permissions in
    (
      λ h. elim (Bool-cases (has (flat_values (or_empty info.permissions)) (codes "Withdraw"))) [
        | inl e ↦ word.0 e
        | inr e ↦ absurd (not_safe _ (rw e at h))
      ],
      λ m. rw (word.1 m),
    )
