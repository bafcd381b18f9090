-- ===== src/Output/FileInfo/Judged.antt =====
-- What the verdicts mean once the desired includes are known.
use include_what_you_use.Base.{false, ◌≡◌}
use include_what_you_use.Text.{Text}
use include_what_you_use.Text.Order.{text_key}
use include_what_you_use.PathUtil.{PathApi}
use include_what_you_use.Output.Use.{OneUse, HeaderSource}
use include_what_you_use.Output.Facts.{ClangFacts, PickerFacts}

module _ (sys : PathApi) (c : ClangFacts) (p : PickerFacts) (src : HeaderSource) where
  -- What is known of the uses when they are judged.
  abbrev pub IsFresh : OneUse → Type 0
  IsFresh u = u.is_iwyu_violation ≡ false
