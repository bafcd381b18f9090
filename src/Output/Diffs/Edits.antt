-- ===== src/Output/Diffs/Edits.antt =====
-- The number of edits that a report counts.
use include_what_you_use.Base.{ℕ, true, some, ◌≡◌}
use include_what_you_use.Text.{Text}
use include_what_you_use.Output.Line.{Line}

-- A line that is in the file has a line number.
abbrev pub IsNumbered : Line → Type 0
IsNumbered l = l.is_present ≡ true → (n : ℕ) × (l.start_linenum ≡ some n)
