-- ===== src/Security/AuditChain/Tamper.antt =====
-- The head of a valid chain commits to every entry of it, unless SHA-256 has been made to collide.
use ztrade.Prelude.{
  ℕ, suc, ◌≡◌, refl, sym, ap, ◌∙◌, ◌≢◌, ◌⊎◌, inl, inr, List, [], ◌∷◌, ◌++◌, arith, Bool-cases,
  length,
}
use ztrade.Security.AuditChain.{
  genesis, Canonical, ChainedAuditEntry, valid, canonical_fields, canonicalise, hash_entry,
  verify_from, verify_chain,
}
use ztrade.Security.AuditChain.Evidence.{InPlace, InPlace-verify_from, count-verify_from}
use ztrade.Prelude.Text.{Text, same_text, same_text_iff}

pub append_inj : (p q c d : Text) → length p ≡ length q → p ++ c ≡ q ++ d → (p ≡ q) × (c ≡ d)
append_inj [] [] c d l h = (refl, h)
append_inj [] (b ∷ q) c d l h = absurd (omega arith)
append_inj (a ∷ p) [] c d l h = absurd (omega arith)
append_inj (a ∷ p) (b ∷ q) c d l h = ground (arith, append_inj p q c d)

Text-cases : (x y : Text) → (x ≡ y) ⊎ (x ≢ y)
Text-cases x y = elim (Bool-cases (same_text x y)) [
  | inl e ↦ inl ((same_text_iff x y).0 e)
  | inr e ↦ inr (λ same. ground (arith, (same_text_iff x y).1 same))
]

same_entry :
    (a b : ChainedAuditEntry)
    → canonical_fields a.seq a.input ≡ canonical_fields b.seq b.input
    → a.prev_hash ≡ b.prev_hash
    → a.hash ≡ b.hash
    → a ≡ b
same_entry a b h p q = ground arith

-- Two different texts with one digest.
abbrev pub Collision : (Text → Text) → Type 0
Collision sha256 = (x : Text) × (y : Text) × (x ≢ y) × (sha256 x ≡ sha256 y)

module _ (sha256 : Text → Text) (stringify : Canonical → Text) where
  -- What the chain relies on: a digest has 64 characters, and different entries print differently.
  pub record IsHashing : Type 0 where
    pub digest_length : (x : Text) → length (sha256 x) ≡ 64
    pub print_inj : (a b : Canonical) → stringify a ≡ stringify b → a ≡ b

  module _ (hashing : IsHashing) where
    open hashing use {digest_length, print_inj}

    entry_committed :
        (i j : ℕ) (p q : Text) (a b : ChainedAuditEntry)
        → length p ≡ 64
        → length q ≡ 64
        → InPlace sha256 stringify i p a
        → InPlace sha256 stringify j q b
        → a.hash ≡ b.hash
        → ((p ≡ q) × (a ≡ b)) ⊎ Collision sha256
    unfolding hash_entry canonicalise
    entry_committed i j p q a b lp lq (sa, pa, ha) (sb, pb, hb) same =
        let x = p ++ canonicalise sha256 stringify a.seq a.input in
        let y = q ++ canonicalise sha256 stringify b.seq b.input in
        elim (Text-cases x y) [
          | inl e ↦
              let (pq, printed) = append_inj p q _ _ (omega arith) e in
              inl (pq, same_entry a b (print_inj _ _ printed) (pa ∙ pq ∙ sym pb) same)
          | inr ne ↦ inr (x, y, ne, sym ha ∙ same ∙ hb)
        ]

    committed_from :
        (i : ℕ) (p q : Text) (xs ys : List ChainedAuditEntry) {h : Text} {n : ℕ}
        → length p ≡ 64
        → length q ≡ 64
        → verify_from sha256 stringify i p xs ≡ valid h n
        → verify_from sha256 stringify i q ys ≡ valid h n
        → ((p ≡ q) × (xs ≡ ys)) ⊎ Collision sha256
    unfolding verify_from hash_entry
    committed_from i p q [] [] lp lq v w = inl (ground arith, refl)
    committed_from i p q [] (y ∷ ys) lp lq v w = absurd (
        omega (
          arith,
          count-verify_from sha256 stringify i p [] v,
          count-verify_from sha256 stringify i q (y ∷ ys) w,
        ))
    committed_from i p q (x ∷ xs) [] lp lq v w = absurd (
        omega (
          arith,
          count-verify_from sha256 stringify i p (x ∷ xs) v,
          count-verify_from sha256 stringify i q [] w,
        ))
    committed_from i p q (x ∷ xs) (y ∷ ys) lp lq v w =
        let (px, vx) = InPlace-verify_from sha256 stringify i p x xs v in
        let (py, wy) = InPlace-verify_from sha256 stringify i q y ys w in
        elim (committed_from (suc i) x.hash y.hash xs ys (ap length px.2 ∙ digest_length _)
          (ap length py.2 ∙ digest_length _) vx wy) [
            | inr c ↦ inr c
            | inl (same, rest) ↦ elim (entry_committed i i p q x y lp lq px py same) [
              | inr c ↦ inr c
              | inl (pq, first) ↦ inl (pq, ground (arith, first, rest))
            ]
          ]

    -- Tamper evidence: two chains that both verify with the same head and the same number of
    -- entries are the same chain, entry by entry, or they exhibit two different texts with one
    -- SHA-256 digest. So whoever edits, reorders, drops or replaces an entry and keeps the published
    -- head has broken SHA-256.
    pub head_commits :
        (xs ys : List ChainedAuditEntry) (h : Text) (n : ℕ)
        → verify_chain sha256 stringify xs ≡ valid h n
        → verify_chain sha256 stringify ys ≡ valid h n
        → (xs ≡ ys) ⊎ Collision sha256
    unfolding verify_chain genesis
    head_commits xs ys h n v w = elim (committed_from 0 genesis genesis xs ys refl refl v w) [
      | inl same ↦ inl same.1
      | inr c ↦ inr c
    ]
