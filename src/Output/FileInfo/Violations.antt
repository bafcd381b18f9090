-- ===== src/Output/FileInfo/Violations.antt =====
-- CalculateIwyuViolations and CalculateAndReportIwyuViolations of iwyu_output.cc.
use include_what_you_use.Base.{
  ℕ, Bool, true, not, ◌&&◌, ◌||◌, Option, some, List, [], ◌∷◌, ◌++◌, map, if◌then◌else◌,
}
use include_what_you_use.Base.Checked.{◌>>=◌}
use include_what_you_use.Text.{Text}
use include_what_you_use.Text.Order.{text_key}
use include_what_you_use.Container.{Set, contains, set_insert, insert_all_into, union}
use include_what_you_use.PathUtil.{PathApi, is_quoted_header_filename}
use include_what_you_use.Output.Use.{OneUse, FileEntry, SourceLocation, HeaderSource, is_full_use}
use include_what_you_use.Output.Facts.{
  ClangFacts, PreprocessorFacts, PickerFacts, OutputFlags, is_some,
}
use include_what_you_use.Output.Minimal.{calculate_minimal_includes}
use include_what_you_use.Output.Process.{
  process_forward_declare, process_full_use, process_symbol_use,
}
use include_what_you_use.Output.Verdict.{
  calculate_iwyu_for_full_use, calculate_iwyu_for_forward_declare_use,
}
use include_what_you_use.Output.Line.{Line, DeclFacts}
use include_what_you_use.Output.Desired.{
  PrefixHeaderPolicy, calculate_desired_includes_and_forward_declares, clear_inhibited,
  cleanup_prefix_header_includes,
}
use include_what_you_use.Output.Diffs.{PrintFlags, printable_diffs}
use include_what_you_use.Output.FileInfo.{Associated, FileInfo, include_file_use}

-- A loop `for (OneUse& use : *uses)` that handles the uses that pass a test.
unfoldable pub for_uses :
    (OneUse → Bool) → (OneUse → Option OneUse) → List OneUse → Option (List OneUse)
for_uses test handle [] = some []
for_uses test handle (u ∷ uses) = do
  u' ← (if test u then handle u else some u)
  uses' ← for_uses test handle uses
  some (u' ∷ uses')

-- The union of the desired includes of the associated headers, which have been calculated.
unfoldable pub associated_desired_includes : List Associated → Option (Set Text)
unfolding insert_all_into
associated_desired_includes [] = some []
associated_desired_includes (header ∷ headers) = do
  own ← header.desired_includes
  rest ← associated_desired_includes headers
  some (insert_all_into own rest)

unfoldable pub associated_direct_includes : List Associated → Set Text
unfolding insert_all_into
associated_direct_includes [] = []
associated_direct_includes (header ∷ headers) =
    insert_all_into header.direct_includes (associated_direct_includes headers)

-- The headers of the cover that are headers by their names, or included now.
unfoldable pub wanted_headers : PathApi → Set Text → Set Text → Set Text → Option (Set Text)
unfolding is_quoted_header_filename contains set_insert
wanted_headers sys direct [] desired = some desired
wanted_headers sys direct (header ∷ cover) desired = do
  is_header ← is_quoted_header_filename sys header
  wanted_headers sys direct cover
      (if is_header || contains direct header then set_insert desired header else desired)

module _ (sys : PathApi) (c : ClangFacts) (picker : PickerFacts) (src : HeaderSource) where
  -- The verdict on one use.
  unfoldable pub judge_use :
      Set Text → Set Text → List (Option FileEntry) → Text → OneUse → Option OneUse
  unfolding calculate_iwyu_for_full_use calculate_iwyu_for_forward_declare_use
  judge_use actual_includes desired_includes associated_files quoted_file u =
      if u.ignore_use
      then some u
      else if not (is_full_use u)
      then calculate_iwyu_for_forward_declare_use c picker actual_includes desired_includes u
          associated_files
      else calculate_iwyu_for_full_use sys u actual_includes quoted_file

  -- The cover, the desired includes, and the verdicts.
  unfoldable pub settle_uses :
      Text
      → Set Text
      → Set Text
      → Set Text
      → List (Option FileEntry)
      → List OneUse
      → Option (List OneUse × Set Text)
  unfolding calculate_minimal_includes wanted_headers for_uses judge_use insert_all_into
  settle_uses quoted_file direct effective_direct associated_desired associated_files uses = do
    (mapped, cover) ← calculate_minimal_includes src quoted_file direct associated_desired uses
    desired ← wanted_headers sys direct cover []
    judged ←
        for_uses (λ u. true)
          (judge_use effective_direct (insert_all_into associated_desired desired) associated_files
            quoted_file)
          mapped
    some (judged, desired)

module _ (sys : PathApi) (c : ClangFacts) (pp : PreprocessorFacts) (picker : PickerFacts)
    (src : HeaderSource) (quote_from_parent : Text → Text → Option Text) (flags : OutputFlags) where
  -- The first three loops. The uses that a loop has handled keep their declarations, which is all that
  -- `ProcessFullUse` reads of the other uses.
  unfoldable pub process_uses : List OneUse → Option (List OneUse)
  unfolding for_uses process_forward_declare process_full_use process_symbol_use
  process_uses uses = do
    uses₁ ←
        for_uses (λ u. not (is_full_use u) && is_some u.decl)
          (process_forward_declare c pp src quote_from_parent flags) uses
    uses₂ ←
        for_uses (λ u. is_full_use u && is_some u.decl)
          (λ u. process_full_use c pp picker flags u uses₁) uses₁
    for_uses (λ u. is_full_use u && not (is_some u.decl))
        (process_symbol_use c pp picker flags src.quoted) uses₂

  -- `ReportIncludeFileUse` for each associated header, at the start of this file.
  unfoldable pub associated_uses : SourceLocation → List Associated → Option (List OneUse)
  unfolding include_file_use
  associated_uses start [] = some []
  associated_uses start (header ∷ headers) = do
    own ← include_file_use (c.path_of_file header.file) header.file header.quoted_file start
    rest ← associated_uses start headers
    some (own ∷ rest)

  -- `CalculateIwyuViolations` on the uses of the file itself, the ones it adds for the associated headers
  -- included.
  unfoldable pub calculate_iwyu_violations : SourceLocation → FileInfo → Option FileInfo
  unfolding process_uses associated_uses associated_direct_includes associated_desired_includes
      union settle_uses
  calculate_iwyu_violations start info = do
    processed ← process_uses info.symbol_uses
    added ← associated_uses start info.associated_headers
    associated_desired ← associated_desired_includes info.associated_headers
    let effective_direct =
        union (associated_direct_includes info.associated_headers) info.direct_includes
    (judged, desired) ←
        settle_uses sys c picker src info.quoted_file info.direct_includes effective_direct
          associated_desired (map (λ h. h.file) info.associated_headers) (processed ++ added)
    some (record info { symbol_uses = judged; desired_includes = some desired })

  -- `CalculateAndReportIwyuViolations`, with the number of edits and the report. The warnings are left out.
  unfoldable pub calculate_and_report_iwyu_violations :
      DeclFacts
      → PrintFlags
      → PrefixHeaderPolicy
      → Bool
      → (Line → Bool)
      → (Line → Bool)
      → (Text → Bool)
      → Text
      → SourceLocation
      → FileInfo
      → Option (FileInfo × (ℕ × Text))
  unfolding calculate_iwyu_violations calculate_desired_includes_and_forward_declares
      clear_inhibited cleanup_prefix_header_includes printable_diffs
  calculate_and_report_iwyu_violations decls print_flags policy comments_with_namespace is_pch
        is_removable is_inhibited filename start info =
      do
        associated_desired ← associated_desired_includes info.associated_headers
        judged ← calculate_iwyu_violations start info
        lines ←
            calculate_desired_includes_and_forward_declares decls comments_with_namespace
              judged.symbol_uses associated_desired judged.kept_includes judged.lines
        let cleaned =
            cleanup_prefix_header_includes is_removable policy
              (map (clear_inhibited is_inhibited) lines)
        report ←
            printable_diffs print_flags (map (λ h. h.quoted_file) judged.associated_headers) is_pch
              filename cleaned
        some (record judged { lines = cleaned }, report)
