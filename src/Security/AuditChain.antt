-- ===== src/Security/AuditChain.antt =====
-- packages/security/src/auditChain.ts: the hash-linked audit log. A text is the list of its code
-- points. SHA-256 in hexadecimal and `JSON.stringify` on the canonical fields are parameters.
pub mod Evidence
pub mod Tamper
use ztrade.Prelude.{
  ℕ, zero, suc, not, Option, none, some, List, [], ◌∷◌, ◌++◌, if◌then◌else◌, length, last?,
}
use ztrade.Prelude.Int.{ℤ, pos, ◌==ℤ◌}
use ztrade.Prelude.Text.{Text, same_text}

abbrev zeros : ℕ → Text
zeros zero = []
zeros (suc n) = b'0' ∷ zeros n

unfoldable pub genesis : Text
genesis = zeros 64

pub record AuditEntryInput : Type 0 where
  pub at : ℤ
  pub action : Text
  pub detail : Text
  pub actor : Option Text
  pub correlation_id : Option Text

-- The array that `canonicalise` prints: sequence number, time, action, detail, actor, correlation.
abbrev pub Canonical : Type 0
Canonical = ℤ × ℤ × Text × Text × Option Text × Option Text

pub record ChainedAuditEntry : Type 0 where
  pub input : AuditEntryInput
  pub seq : ℤ
  pub prev_hash : Text
  pub hash : Text

pub data Break : Type 0 where
  seq_mismatch : (expected : ℕ) (found : ℤ) → Break
  linkage_broken content_modified : Break

pub data VerifyResult : Type 0 where
  valid : (head : Text) (count : ℕ) → VerifyResult
  broken : (broken_at : ℕ) → Break → VerifyResult

abbrev pub canonical_fields : ℤ → AuditEntryInput → Canonical
canonical_fields seq input =
    (seq, input.at, input.action, input.detail, input.actor, input.correlation_id)

-- `entry?.hash ?? prev`
abbrev pub head_or : Text → Option ChainedAuditEntry → Text
head_or prev none = prev
head_or prev (some e) = e.hash

module _ (sha256 : Text → Text) (stringify : Canonical → Text) where
  unfoldable pub canonicalise : ℤ → AuditEntryInput → Text
  canonicalise seq input = stringify (canonical_fields seq input)

  unfoldable pub hash_entry : Text → ℤ → AuditEntryInput → Text
  hash_entry prev_hash seq input = sha256 (prev_hash ++ canonicalise seq input)

  unfoldable pub head : List ChainedAuditEntry → Text
  head entries = head_or genesis (last? entries)

  unfoldable pub append : List ChainedAuditEntry → AuditEntryInput → List ChainedAuditEntry
  append entries input =
      let seq = pos (length entries) in
      let prev_hash = head entries in
      entries
      ++ (record {
        input = input;
        seq = seq;
        prev_hash = prev_hash;
        hash = hash_entry prev_hash seq input;
      }
          ∷ [])

  -- The loop of `verifyChain`, from entry `i` on.
  unfoldable pub verify_from : ℕ → Text → List ChainedAuditEntry → VerifyResult
  verify_from i prev_hash [] = valid prev_hash i
  verify_from i prev_hash (e ∷ entries) =
      if not (e.seq ==ℤ pos i)
      then broken i (seq_mismatch i e.seq)
      else if not (same_text e.prev_hash prev_hash)
      then broken i linkage_broken
      else if not (same_text e.hash (hash_entry prev_hash e.seq e.input))
      then broken i content_modified
      else verify_from (suc i) e.hash entries

  unfoldable pub verify_chain : List ChainedAuditEntry → VerifyResult
  verify_chain entries = verify_from 0 genesis entries
