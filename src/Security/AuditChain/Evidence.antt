-- ===== src/Security/AuditChain/Evidence.antt =====
-- What a valid chain is evidence of.
use ztrade.Prelude.{
  ℕ, suc, ◌+◌, ◌≡◌, refl, sym, ap, ◌∙◌, some, List, [], ◌∷◌, ◌++◌, arith, length, last?,
}
use ztrade.Prelude.Int.{pos, ==ℤ_iff}
use ztrade.Security.AuditChain.{
  Canonical, ChainedAuditEntry, valid, hash_entry, verify_from, verify_chain, append, head,
  AuditEntryInput, head_or, genesis,
}
use ztrade.Prelude.Text.{Text, same_text_iff}

last?-cons :
    (prev : Text) (e : ChainedAuditEntry) (entries : List ChainedAuditEntry)
    → head_or prev (last? (e ∷ entries)) ≡ head_or e.hash (last? entries)
last?-cons prev e [] = refl
last?-cons prev e (f ∷ []) = refl
last?-cons prev e (f ∷ g ∷ entries) = last?-cons prev e (g ∷ entries)

last?-append :
    (entries : List ChainedAuditEntry) (e : ChainedAuditEntry)
    → last? (entries ++ (e ∷ [])) ≡ some e
last?-append [] e = refl
last?-append (f ∷ []) e = refl
last?-append (f ∷ g ∷ entries) e = last?-append (g ∷ entries) e

module _ (sha256 : Text → Text) (stringify : Canonical → Text) where
  -- An entry is in its place: numbered `i`, linked to `prev`, and hashed over what it says.
  abbrev pub InPlace : ℕ → Text → ChainedAuditEntry → Type 0
  InPlace i prev e =
      (e.seq ≡ pos i)
      × (e.prev_hash ≡ prev)
      × (e.hash ≡ hash_entry sha256 stringify prev e.seq e.input)

  verify_from-InPlace :
      (i : ℕ) (prev : Text) (e : ChainedAuditEntry) (entries : List ChainedAuditEntry)
      → InPlace i prev e
      → verify_from sha256 stringify i prev (e ∷ entries)
        ≡ verify_from sha256 stringify (suc i) e.hash entries
  unfolding verify_from
  verify_from-InPlace i prev e entries h = ground (
    arith,
    ==ℤ_iff e.seq (pos i),
    same_text_iff e.prev_hash prev,
    same_text_iff e.hash (hash_entry sha256 stringify prev e.seq e.input),
  )

  pub InPlace-verify_from :
      (i : ℕ) (prev : Text) (e : ChainedAuditEntry) (entries : List ChainedAuditEntry) {h : Text}
      {n : ℕ}
      → verify_from sha256 stringify i prev (e ∷ entries) ≡ valid h n
      → InPlace i prev e × (verify_from sha256 stringify (suc i) e.hash entries ≡ valid h n)
  unfolding verify_from
  InPlace-verify_from i prev e entries h = ground (
    arith,
    ==ℤ_iff e.seq (pos i),
    same_text_iff e.prev_hash prev,
    same_text_iff e.hash (hash_entry sha256 stringify prev e.seq e.input),
  )

  pub count-verify_from :
      (i : ℕ) (prev : Text) (entries : List ChainedAuditEntry) {h : Text} {n : ℕ}
      → verify_from sha256 stringify i prev entries ≡ valid h n
      → n ≡ i + length entries
  unfolding verify_from
  count-verify_from i prev [] v = ground arith
  count-verify_from i prev (e ∷ entries) v =
      omega
        (arith, count-verify_from (suc i) e.hash entries (InPlace-verify_from i prev e entries v).1)

  head-verify_from :
      (i : ℕ) (prev : Text) (entries : List ChainedAuditEntry) {h : Text} {n : ℕ}
      → verify_from sha256 stringify i prev entries ≡ valid h n
      → h ≡ head_or prev (last? entries)
  unfolding verify_from
  head-verify_from i prev [] v = ground arith
  head-verify_from i prev (e ∷ entries) v =
      head-verify_from (suc i) e.hash entries (InPlace-verify_from i prev e entries v).1
      ∙ sym (last?-cons prev e entries)

  verify_from-append :
      (i : ℕ) (prev : Text) (entries : List ChainedAuditEntry) (e : ChainedAuditEntry) {h : Text}
      {n : ℕ}
      → verify_from sha256 stringify i prev entries ≡ valid h n
      → InPlace n h e
      → verify_from sha256 stringify i prev (entries ++ (e ∷ [])) ≡ valid e.hash (suc n)
  unfolding verify_from
  verify_from-append i prev [] e {h} {n} v p =
      let place : InPlace i prev e = ground (arith, v) in
      verify_from-InPlace i prev e [] place ∙ ground (arith, v)
  verify_from-append i prev (f ∷ entries) e v p =
      let (place, rest) = InPlace-verify_from i prev f entries v in
      verify_from-InPlace i prev f (entries ++ (e ∷ [])) place
      ∙ verify_from-append (suc i) f.hash entries e rest p

  append-valid :
      (entries : List ChainedAuditEntry) (input : AuditEntryInput) {h : Text} {n : ℕ}
      → verify_chain sha256 stringify entries ≡ valid h n
      → verify_chain sha256 stringify (append sha256 stringify entries input)
        ≡ valid (head sha256 stringify (append sha256 stringify entries input)) (suc n)
  unfolding verify_chain append head
  append-valid entries input {h} {n} v =
      let e : ChainedAuditEntry = record {
        input = input;
        seq = pos (length entries);
        prev_hash = head_or genesis (last? entries);
        hash =
            hash_entry sha256 stringify (head_or genesis (last? entries)) (pos (length entries))
              input;
      } in
      let same_head = sym (head-verify_from 0 genesis entries v) in
      let same_count : length entries ≡ n = omega (arith, count-verify_from 0 genesis entries v) in
      let place : InPlace n h e = (
        ap pos same_count,
        same_head,
        ap (λ p. hash_entry sha256 stringify p (pos (length entries)) input) same_head,
      ) in
      verify_from-append 0 genesis entries e v place
      ∙ sym (ap (λ o. valid (head_or genesis o) (suc n)) (last?-append entries e))

  -- A log that is written by `append` alone.
  unfoldable pub append_all : List ChainedAuditEntry → List AuditEntryInput → List ChainedAuditEntry
  append_all entries [] = entries
  append_all entries (input ∷ inputs) = append_all (append sha256 stringify entries input) inputs

  verify-append_from :
      (entries : List ChainedAuditEntry) (inputs : List AuditEntryInput) (n : ℕ)
      → verify_chain sha256 stringify entries ≡ valid (head sha256 stringify entries) n
      → verify_chain sha256 stringify (append_all entries inputs)
        ≡ valid (head sha256 stringify (append_all entries inputs)) (n + length inputs)
  unfolding append_all
  verify-append_from entries [] n v = v ∙ ap (valid (head sha256 stringify entries)) (omega arith)
  verify-append_from entries (input ∷ inputs) n v =
      verify-append_from (append sha256 stringify entries input) inputs (suc n)
        (append-valid entries input v)
      ∙ ap
          (valid
            (head sha256 stringify (append_all (append sha256 stringify entries input) inputs)))
          (omega arith)

  -- A chain that is built by appending verifies, whatever was logged: the check gives the head that
  -- the chain reports, and counts every entry.
  pub verify-append_all :
      (inputs : List AuditEntryInput)
      → verify_chain sha256 stringify (append_all [] inputs)
        ≡ valid (head sha256 stringify (append_all [] inputs)) (length inputs)
  unfolding verify_chain verify_from head
  verify-append_all inputs =
      verify-append_from [] inputs 0 refl
      ∙ ap (valid (head sha256 stringify (append_all [] inputs))) (omega arith)
