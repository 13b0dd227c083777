-- ===== src/Security/KeyScope.antt =====
-- packages/security/src/keyScope.ts: what the permissions of an API key allow at startup. A text is
-- the list of its code points; the venue's permission names are ASCII, and so is the folding of case.
pub mod Withdrawal
use ztrade.Prelude.{
  ℕ, ◌+◌, Bool, true, false, not, ◌&&◌, ◌||◌, Option, none, some, List, [], ◌∷◌, ◌++◌, leb, ◌==◌,
  if◌then◌else◌, codes,
}
use mathlib.Core.List.{flatten}
use ztrade.Prelude.Text.{Text}

pub record KeyPermissions : Type 0 where
  pub can_trade : Bool
  pub can_withdraw : Bool
  pub can_transfer : Bool
  pub can_read : Bool
  pub ip_whitelist : List Text
  pub raw : List Text

pub data Warning : Type 0 where
  no_ip_whitelist can_transfer_funds cannot_trade : Warning

pub data KeyScopeVerdict : Type 0 where
  safe : List Warning → KeyScopeVerdict
  withdrawal_enabled : List Warning → KeyScopeVerdict

abbrev is_empty : List Text → Bool
is_empty [] = true
is_empty (ip ∷ ips) = false

unfoldable pub evaluate_key_scope : KeyPermissions → KeyScopeVerdict
evaluate_key_scope perms =
    if perms.can_withdraw
    then withdrawal_enabled []
    else safe (
        (if is_empty perms.ip_whitelist then no_ip_whitelist ∷ [] else [])
        ++ ((if perms.can_transfer then can_transfer_funds ∷ [] else [])
            ++ (if perms.can_trade then [] else cannot_trade ∷ [])))

abbrev pub lower_char : ℕ → ℕ
lower_char c = if leb b'A' c && leb c b'Z' then c + 32 else c

abbrev pub to_lower_case : Text → Text
to_lower_case [] = []
to_lower_case (c ∷ text) = lower_char c ∷ to_lower_case text

abbrev pub starts_with : Text → Text → Bool
starts_with [] text = true
starts_with (c ∷ needle) [] = false
starts_with (c ∷ needle) (d ∷ text) = c == d && starts_with needle text

-- `text.includes(needle)`
abbrev pub includes : Text → Text → Bool
includes needle [] = starts_with needle []
includes needle (d ∷ text) = starts_with needle (d ∷ text) || includes needle text

-- `flat.some((p) => …)`
abbrev pub has : List Text → Text → Bool
has [] needle = false
has (p ∷ flat) needle = includes (to_lower_case needle) (to_lower_case p) || has flat needle

abbrev is_listed : Text → Bool
is_listed [] = false
is_listed (c ∷ []) = not (c == b'*')
is_listed (c ∷ d ∷ ip) = true

-- `filter((ip) => ip && ip !== "*")`
abbrev pub listed_ips : List Text → List Text
listed_ips [] = []
listed_ips (ip ∷ ips) = if is_listed ip then ip ∷ listed_ips ips else listed_ips ips

pub record ApiKeyInfo : Type 0 where
  pub permissions : Option (List (Text × List Text))
  pub ips : Option (List Text)
  pub read_only : Option ℕ

abbrev pub or_empty : {A : Type 0} → Option (List A) → List A
or_empty none = []
or_empty (some xs) = xs

-- `Object.values(permissions).flat()`
abbrev pub flat_values : List (Text × List Text) → List Text
flat_values [] = []
flat_values ((category, names) ∷ permissions) = names ++ flat_values permissions

unfoldable pub parse_bybit_permissions : ApiKeyInfo → KeyPermissions
parse_bybit_permissions info =
    let flat = flat_values (or_empty info.permissions) in
    record {
      can_trade =
          has flat (codes "Trade")
          || (has flat (codes "SpotTrade")
              || (has flat (codes "Order") || has flat (codes "DerivativesTrade")));
      can_withdraw = has flat (codes "Withdraw");
      can_transfer = has flat (codes "Transfer") || has flat (codes "SubMemberTransfer");
      can_read = true;
      ip_whitelist = listed_ips (or_empty info.ips);
      raw = flat;
    }
