-- ===== src/Preprocessor/Pragma/Exit.antt =====
-- The regions at the end of a file, after any sequence of pragmas and ends of files.
use include_what_you_use.Base.{
  if-cases, false, Option, none, some, List, [], ◌∷◌, ◌≡◌, refl, ap, ◌∙◌, subst, if◌then◌else◌,
  take, ◌-◌,
}
use include_what_you_use.Base.Checked.{some-eq, >>=-eq-some}
use include_what_you_use.Text.{Text, text, split_on_white_space_preserving_quotes}
use include_what_you_use.Output.Use.{SourceLocation}
use include_what_you_use.Output.Facts.{file_eq}
use include_what_you_use.Preprocessor.{
  File, file_key, file_eq_iff, SourceRange, PreprocessorInfo, SourceApi, warn, warn,
}
use include_what_you_use.Preprocessor.Pragma.{
  top_is, has_open_begin_exports, has_open_begin_keep, handle_pragma, handle_pragma_comment,
  strip_pragma, drop_exports, drop_keep, file_changed_exit_to_file,
}
use include_what_you_use.Preprocessor.Pragma.Same.{IsSpaced, HasRegions}
use include_what_you_use.Preprocessor.Pragma.Regions.{RegionsOr, handle_pragma-RegionsOr}

module _ (api : SourceApi) where
  -- The state after pragma comments and ends of files.
  pub data Runs (s : PreprocessorInfo) : PreprocessorInfo → Type 0 where
    start : Runs s s
    comment :
        (range : SourceRange) {t u : PreprocessorInfo}
        → Runs s t
        → handle_pragma_comment api t range ≡ some u
        → Runs s u
    exit :
        (file : File) {t : PreprocessorInfo}
        → Runs s t
        → Runs s (file_changed_exit_to_file api t file)

  pub record HasNoRegion (s : PreprocessorInfo) : Type 0 where
    pub no_exports : s.begin_exports_location_stack ≡ []
    pub no_keep : s.begin_keep_location_stack ≡ []
    pub no_export_ranges : s.export_location_ranges ≡ []
    pub no_keep_ranges : s.keep_location_ranges ≡ []

  handle_pragma_comment-HasRegions :
      (s : PreprocessorInfo) (range : SourceRange) (t : PreprocessorInfo)
      → handle_pragma_comment api s range ≡ some t
      → HasRegions api s
      → HasRegions api t
  unfolding handle_pragma_comment
  handle_pragma_comment-HasRegions s (from, to) t e h =
      let (begin_text, _, e₁) = >>=-eq-some (api.char_data from) _ e in
      let (_, _, e₂) = >>=-eq-some (api.char_data to) _ e₁ in
      by_pragma (strip_pragma (take (to - from) begin_text)) e₂
    where
      by_pragma :
          (o : Option Text)
          → (elim o [
            | none ↦ some s
            | some pragma_text ↦
                handle_pragma api s
                  (api.file_of_loc from)
                  from
                  pragma_text
                  (split_on_white_space_preserving_quotes pragma_text 0)
          ])
            ≡ some t
          → HasRegions api t
      by_pragma none e' = subst (HasRegions api) (some-eq e') h
      by_pragma (some pragma_text) e' =
          subst (RegionsOr api) e' (handle_pragma-RegionsOr api s from pragma_text _ h)

  -- The regions with no open exports, or no open keep, of a file.
  abbrev WithoutExports : File → PreprocessorInfo → Type 0
  WithoutExports file t =
      HasRegions api t × (top_is api t.begin_exports_location_stack file ≡ false)

  abbrev WithoutKeep : File → PreprocessorInfo → Type 0
  WithoutKeep file t = HasRegions api t × (top_is api t.begin_keep_location_stack file ≡ false)

  drop_exports-WithoutExports :
      (s : PreprocessorInfo) (file : File)
      → HasRegions api s
      → WithoutExports file (drop_exports api s file)
  unfolding drop_exports has_open_begin_exports
  drop_exports-WithoutExports s file h =
      by_stack s.begin_exports_location_stack refl h.exports_spaced
    where
      by_stack :
          (stack : List SourceLocation)
          → s.begin_exports_location_stack ≡ stack
          → IsSpaced api stack
          → WithoutExports file (
              if top_is api stack file
              then elim stack [
                | [] ↦ s
                | top ∷ stack' ↦ record (warn s top (text "begin_exports without an end_exports")) {
                  begin_exports_location_stack = stack';
                }
              ]
              else s)
      by_stack [] e spaced = (h, rw e refl)
      by_stack (top ∷ stack) e (apart, spaced) =
          if-cases (WithoutExports file) (file_eq (api.file_of_loc top) file)
            (λ same. (
              record {
                exports_spaced = spaced;
                keep_spaced = h.keep_spaced;
                exports_in_file = h.exports_in_file;
                keep_in_file = h.keep_in_file;
              },
              subst (λ f. top_is api stack f ≡ false)
                  ((file_eq_iff (api.file_of_loc top) file).0 same) apart,
            ))
            (λ other. (h, rw e other))

  drop_keep-WithoutKeep :
      (s : PreprocessorInfo) (file : File)
      → HasRegions api s
      → WithoutKeep file (drop_keep api s file)
        × ((drop_keep api s file).begin_exports_location_stack ≡ s.begin_exports_location_stack)
  unfolding drop_keep has_open_begin_keep
  drop_keep-WithoutKeep s file h = by_stack s.begin_keep_location_stack refl h.keep_spaced
    where
      Same : PreprocessorInfo → Type 0
      Same t =
          WithoutKeep file t × (t.begin_exports_location_stack ≡ s.begin_exports_location_stack)

      by_stack :
          (stack : List SourceLocation)
          → s.begin_keep_location_stack ≡ stack
          → IsSpaced api stack
          → Same (
              if top_is api stack file
              then elim stack [
                | [] ↦ s
                | top ∷ stack' ↦ record (warn s top (text "begin_keep without an end_keep")) {
                  begin_keep_location_stack = stack';
                }
              ]
              else s)
      by_stack [] e spaced = ((h, rw e refl), refl)
      by_stack (top ∷ stack) e (apart, spaced) =
          if-cases Same (file_eq (api.file_of_loc top) file)
            (λ same. (
              (
                record {
                  exports_spaced = h.exports_spaced;
                  keep_spaced = spaced;
                  exports_in_file = h.exports_in_file;
                  keep_in_file = h.keep_in_file;
                },
                subst (λ f. top_is api stack f ≡ false)
                    ((file_eq_iff (api.file_of_loc top) file).0 same) apart,
              ),
              refl,
            ))
            (λ other. ((h, rw e other), refl))

  abbrev IsClosed : File → PreprocessorInfo → Type 0
  IsClosed file t =
      HasRegions api t
      × (has_open_begin_exports api t file ≡ false)
      × (has_open_begin_keep api t file ≡ false)

  exit-IsClosed :
      (s : PreprocessorInfo) (file : File)
      → HasRegions api s
      → IsClosed file (file_changed_exit_to_file api s file)
  unfolding file_changed_exit_to_file has_open_begin_exports has_open_begin_keep
  exit-IsClosed s file h =
      let (h₁, shut) = drop_exports-WithoutExports s file h in
      let ((h₂, shut'), same) = drop_keep-WithoutKeep (drop_exports api s file) file h₁ in
      (h₂, ap (λ stack. top_is api stack file) same ∙ shut, shut')

  Runs-HasRegions : (s t : PreprocessorInfo) → HasNoRegion s → Runs s t → HasRegions api t
  Runs-HasRegions s _ none_yet start = record {
    exports_spaced = rw none_yet.no_exports tt;
    keep_spaced = rw none_yet.no_keep tt;
    exports_in_file = rw none_yet.no_export_ranges tt;
    keep_in_file = rw none_yet.no_keep_ranges tt;
  }
  Runs-HasRegions s u none_yet (comment range {t} runs e) =
      handle_pragma_comment-HasRegions t range u e (Runs-HasRegions s t none_yet runs)
  Runs-HasRegions s _ none_yet (exit file {t} runs) =
      (exit-IsClosed t file (Runs-HasRegions s t none_yet runs)).0

  -- From a state without regions, after any sequence of pragma comments and ends of files, and then the
  -- end of a file, that file has no open begin_exports or begin_keep, no two open regions of one file
  -- stand on each other, and each range that was kept begins and ends in its file.
  pub file_changed_exit_to_file-closes :
      (s t : PreprocessorInfo) (file : File)
      → HasNoRegion s
      → Runs s t
      → IsClosed file (file_changed_exit_to_file api t file)
  file_changed_exit_to_file-closes s t file none_yet runs =
      exit-IsClosed t file (Runs-HasRegions s t none_yet runs)
