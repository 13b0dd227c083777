-- ===== src/Execution/Journal/File.antt =====
-- The file of the journal: what is appended is read back, and what a torn line costs.
use ztrade.Prelude.{
  ℕ, ◌≡◌, refl, ◌∙◌, Bool, false, ◌||◌, Option, none, some, List, [], ◌∷◌, ◌++◌, arith, ◌==◌,
}
use mathlib.Core.List.{append-nil, append_assoc}
use ztrade.Execution.Journal.{
  JournalEntry, split_lines, is_blank, append_entry, read_lines, read_file,
}

abbrev has_newline : List ℕ → Bool
has_newline [] = false
has_newline (c ∷ text) = c == 10 || has_newline text

-- A file of whole lines: empty, or ending in a newline.
abbrev pub IsWhole : List ℕ → Type 0
IsWhole [] = Unit
IsWhole (c ∷ []) = c ≡ 10
IsWhole (c ∷ b ∷ text) = IsWhole (b ∷ text)

-- A last line with no newline in it is a piece of its own.
split_one : (line : List ℕ) → has_newline line ≡ false → split_lines line ≡ line ∷ []
split_one [] h = refl
split_one (c ∷ line) h = ground (arith, split_one line)

split_line :
    (line rest : List ℕ)
    → has_newline line ≡ false
    → split_lines (line ++ (10 ∷ rest)) ≡ line ∷ split_lines rest
split_line [] rest h = refl
split_line (c ∷ line) rest h = ground (arith, split_line line rest)

module _ {F : Type 0} (stringify : JournalEntry F → List ℕ)
    (parse : List ℕ → Option (JournalEntry F)) where
  -- What the journal relies on of `JSON`: an entry is printed on one line and read back, and the
  -- empty text is no value.
  pub record IsCodec : Type 0 where
    pub parse-stringify : (e : JournalEntry F) → parse (stringify e) ≡ some e
    pub one_line : (e : JournalEntry F) → has_newline (stringify e) ≡ false
    pub not_blank : (e : JournalEntry F) → is_blank (stringify e) ≡ false
    pub parse-empty : parse [] ≡ none

  -- Entries appended one after the other.
  pub append_all : List ℕ → List (JournalEntry F) → List ℕ
  append_all file [] = file
  append_all file (e ∷ es) = append_all (append_entry stringify file e) es

  text : List (JournalEntry F) → List ℕ
  text [] = []
  text (e ∷ es) = stringify e ++ (10 ∷ text es)

  append_all-eq-text :
      (file : List ℕ) (es : List (JournalEntry F)) → append_all file es ≡ file ++ text es
  unfolding append_all text append_entry
  append_all-eq-text file [] = simp append-nil
  append_all-eq-text file (e ∷ es) =
      simp (append_all-eq-text (append_entry stringify file e) es, append_assoc)

  read_skip :
      (line : List ℕ) (lines : List (List ℕ))
      → parse line ≡ none
      → read_lines parse (line ∷ lines) ≡ read_lines parse lines
  unfolding read_lines
  read_skip line lines h = ground arith

  module _ (codec : IsCodec) where
    open codec use {parse-stringify, one_line, not_blank, parse-empty}

    read_line :
        (e : JournalEntry F) (rest : List ℕ)
        → read_file parse (stringify e ++ (10 ∷ rest)) ≡ e ∷ read_file parse rest
    unfolding read_file read_lines
    read_line e rest =
        rw (split_line (stringify e) rest (one_line e), not_blank e, parse-stringify e)

    read_text :
        (es : List (JournalEntry F)) (rest : List ℕ)
        → read_file parse (text es ++ rest) ≡ es ++ read_file parse rest
    unfolding text
    read_text [] rest = refl
    read_text (e ∷ es) rest = rw (append_assoc, read_line e (text es ++ rest), read_text es rest)

    read_torn :
        (torn : List ℕ) → has_newline torn ≡ false → parse torn ≡ none → read_file parse torn ≡ []
    unfolding read_file read_lines
    read_torn torn h n = rw (split_one torn h) (ground arith)

    has_newline-append :
        (a b : List ℕ)
        → has_newline a ≡ false
        → has_newline b ≡ false
        → has_newline (a ++ b) ≡ false
    has_newline-append [] b h k = k
    has_newline-append (c ∷ a) b h k = ground (arith, has_newline-append a b)

    append_torn :
        (a torn : List ℕ) (e : JournalEntry F) (rest : List ℕ)
        → append_entry stringify (a ++ torn) e ++ rest ≡ a ++ ((torn ++ stringify e) ++ (10 ∷ rest))
    unfolding append_entry
    append_torn a torn e rest = simp append_assoc

    -- A line that does not parse costs itself alone.
    read_bad :
        (line : List ℕ) (later : List (JournalEntry F))
        → has_newline line ≡ false
        → parse line ≡ none
        → read_file parse (line ++ (10 ∷ text later)) ≡ later
    unfolding read_file
    read_bad line later h n =
        rw (split_line line (text later) h, read_skip line (split_lines (text later)) n)
          (rw (← append-nil (text later))
            (read_text later [] ∙ rw (read_torn [] refl parse-empty) (append-nil later)))

    -- Every entry that was appended is read back, in order, whether or not the file ends in a torn
    -- line: one that was cut off before its newline and does not parse.
    pub read-append_all :
        (es : List (JournalEntry F)) (torn : List ℕ)
        → has_newline torn ≡ false
        → parse torn ≡ none
        → read_file parse (append_all [] es ++ torn) ≡ es
    read-append_all es torn h n =
        rw (append_all-eq-text [] es, read_text es torn, read_torn torn h n) (append-nil es)

    -- A torn line swallows the next entry: what is appended first after a torn write goes on the
    -- same line, so wherever the two together do not parse that entry is lost, and reading gives
    -- the entries before it and those after it.
    pub append_after_torn :
        (es : List (JournalEntry F)) (torn : List ℕ) (e : JournalEntry F)
        (later : List (JournalEntry F))
        → has_newline torn ≡ false
        → parse (torn ++ stringify e) ≡ none
        → read_file parse (append_all (append_entry stringify (append_all [] es ++ torn) e) later)
          ≡ es ++ later
    append_after_torn es torn e later h n = rw (
      append_all-eq-text (append_entry stringify (append_all [] es ++ torn) e) later,
      append_all-eq-text [] es,
      append_torn (text es) torn e (text later),
      read_text es ((torn ++ stringify e) ++ (10 ∷ text later)),
      read_bad (torn ++ stringify e) later (has_newline-append torn (stringify e) h (one_line e)) n,
    )
