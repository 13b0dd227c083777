-- ===== src/Execution/Journal.antt =====
-- packages/execution/src/journal.ts: the append-only journal, cold-start recovery, and the gate that
-- keeps trading shut until the recovered state has been reconciled.
pub mod File
pub mod Recovery
use ztrade.Prelude.{
  ℕ, String, Bool, true, false, ◌&&◌, ◌||◌, Option, none, some, List, [], ◌∷◌, ◌++◌, leb, ◌==◌,
  if◌then◌else◌,
}
use ztrade.Prelude.Double.{Double}
use ztrade.Prelude.Table.{Table, string_eq, lookup, insert}
use ztrade.Execution.OrderState.{
  Side, buy, sell, OrderEvent, fill, OrderRecord, ApplyResult, ok, refused, new_order,
  apply_order_event, nought,
}

pub data JournalEntry (F : Type 0) : Type 0 where
  open_order : (at : F) (order_link_id symbol : String) → Side → (qty : F) → JournalEntry F
  event : (at : F) (order_link_id : String) → OrderEvent F → JournalEntry F
  reconciled : (at : F) (detail : String) → JournalEntry F

-- The text of a file, by its code points; `JSON.stringify` and `JSON.parse` are the engine's, and
-- `none` stands for the exception that `JSON.parse` throws. `trim` leaves nothing of a blank line.
module _ {F : Type 0} (stringify : JournalEntry F → List ℕ) where
  -- `FileJournal.append`
  unfoldable pub append_entry : List ℕ → JournalEntry F → List ℕ
  append_entry file entry = file ++ (stringify entry ++ (10 ∷ []))

-- `MemoryJournal`: its entries are its content.
unfoldable pub append_memory :
    {F : Type 0} → List (JournalEntry F) → JournalEntry F → List (JournalEntry F)
append_memory entries entry = entries ++ (entry ∷ [])

abbrev is_space : ℕ → Bool
is_space c = c == 32 || (leb 9 c && leb c 13)

abbrev pub is_blank : List ℕ → Bool
is_blank [] = true
is_blank (c ∷ line) = is_space c && is_blank line

-- The first part goes before the line that the rest begins with.
abbrev glue : ℕ → List (List ℕ) → List (List ℕ)
glue c [] = (c ∷ []) ∷ []
glue c (line ∷ lines) = (c ∷ line) ∷ lines

-- `text.split("\n")`
abbrev pub split_lines : List ℕ → List (List ℕ)
split_lines [] = [] ∷ []
split_lines (c ∷ text) = if c == 10 then [] ∷ split_lines text else glue c (split_lines text)

module _ {F : Type 0} (parse : List ℕ → Option (JournalEntry F)) where
  abbrev keep : Option (JournalEntry F) → List (JournalEntry F) → List (JournalEntry F)
  keep (some entry) out = entry ∷ out
  keep none out = out

  -- The loop of `FileJournal.read`: blank lines and lines that do not parse are skipped.
  unfoldable pub read_lines : List (List ℕ) → List (JournalEntry F)
  read_lines [] = []
  read_lines (line ∷ lines) =
      if is_blank line then read_lines lines else keep (parse line) (read_lines lines)

  unfoldable pub read_file : List ℕ → List (JournalEntry F)
  read_file file = read_lines (split_lines file)

pub record RecoveredState (F : Type 0) : Type 0 where
  pub orders : Table String (OrderRecord F)
  pub positions : Table String F
  pub last_reconciled_at : Option F

module _ {F : Type 0} ⦃d : Double F⦄ where
  abbrev pub get_or_nought : Option F → F
  get_or_nought (some x) = x
  get_or_nought none = nought

  abbrev pub signed : Side → F → F
  signed buy qty = qty
  signed sell qty = d.neg qty

  -- `positions.set` after an accepted fill.
  unfoldable pub book_fill : OrderRecord F → OrderEvent F → Table String F → Table String F
  book_fill existing (fill qty price fee is_maker) positions =
      insert existing.symbol
        (d.add (get_or_nought (lookup existing.symbol positions)) (signed existing.side qty))
        positions
  book_fill existing _ positions = positions

  unfoldable pub recover_result :
      String → OrderRecord F → OrderEvent F → ApplyResult F → RecoveredState F → RecoveredState F
  unfolding book_fill
  recover_result id existing e (refused error order) s = s
  recover_result id existing e (ok order transitioned) s = record s {
    orders = insert id order s.orders;
    positions = book_fill existing e s.positions;
  }

  unfoldable pub recover_event :
      String → OrderEvent F → Option (OrderRecord F) → RecoveredState F → RecoveredState F
  unfolding recover_result
  recover_event id e none s = s
  recover_event id e (some existing) s =
      recover_result id existing e (apply_order_event existing e) s

  -- One round of the loop of `recoverState`.
  unfoldable pub recover_step : JournalEntry F → RecoveredState F → RecoveredState F
  unfolding recover_event
  recover_step (reconciled at detail) s = record s { last_reconciled_at = some at }
  recover_step (open_order at id symbol side qty) s = record s {
    orders = insert id (new_order id symbol side qty) s.orders;
  }
  recover_step (event at id e) s = recover_event id e (lookup id s.orders) s

  unfoldable pub recover_from : List (JournalEntry F) → RecoveredState F → RecoveredState F
  recover_from [] s = s
  recover_from (entry ∷ entries) s = recover_from entries (recover_step entry s)

  unfoldable pub recover_state : List (JournalEntry F) → RecoveredState F
  unfolding recover_from
  recover_state entries =
      recover_from entries (record { orders = []; positions = []; last_reconciled_at = none })

-- `RecoveryGate` by its one field.
pub record RecoveryGate : Type 0 where
  pub reconciled : Bool

abbrev pub new_gate : RecoveryGate
new_gate = record { reconciled = false }

abbrev pub can_trade : RecoveryGate → Bool
can_trade gate = gate.reconciled

abbrev pub mark_reconciled : RecoveryGate → RecoveryGate
mark_reconciled gate = record { reconciled = true }

abbrev pub block : RecoveryGate → RecoveryGate
block gate = record { reconciled = false }
