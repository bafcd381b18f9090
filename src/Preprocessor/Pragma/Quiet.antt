-- ===== src/Preprocessor/Pragma/Quiet.antt =====
-- Pragmas inside of a region: they are not obeyed.
use include_what_you_use.Base.{Option, some, List, [], ◌∷◌, ◌++◌, ◌≡◌}
use include_what_you_use.Text.{Text}
use include_what_you_use.Output.Use.{SourceLocation}
use include_what_you_use.Preprocessor.{File, PreprocessorInfo, SourceApi, warn}

module _ (api : SourceApi) where
  -- What becomes of the state in a region of a file: it warns, or it ends the region and keeps its range.
  pub data InRegion (s : PreprocessorInfo) (file : File) (loc : SourceLocation)
      : PreprocessorInfo → Type 0 where
    warned : (message : Text) → InRegion s file loc (warn s loc message)
    exports_ended :
        (from : SourceLocation) (stack : List SourceLocation)
        → s.begin_exports_location_stack ≡ from ∷ stack
        → InRegion s file loc (record s {
          begin_exports_location_stack = stack;
          export_location_ranges = s.export_location_ranges ++ (file, (from, loc)) ∷ [];
        })
    keep_ended :
        (from : SourceLocation) (stack : List SourceLocation)
        → s.begin_keep_location_stack ≡ from ∷ stack
        → InRegion s file loc (record s {
          begin_keep_location_stack = stack;
          keep_location_ranges = s.keep_location_ranges ++ (file, (from, loc)) ∷ [];
        })

  abbrev Obeys : PreprocessorInfo → File → SourceLocation → Option PreprocessorInfo → Type 0
  Obeys s file loc result = (t : PreprocessorInfo) × (result ≡ some t) × InRegion s file loc t
