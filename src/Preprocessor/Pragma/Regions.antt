-- ===== src/Preprocessor/Pragma/Regions.antt =====
-- The regions between begin_exports and end_exports, and between begin_keep and end_keep.
use include_what_you_use.Base.{
  true, false, Option, none, some, List, [], ◌∷◌, ◌++◌, ◌≡◌, refl, All-append, Bool-cases, inl, inr,
  if-holds, if◌then◌else◌,
}
use include_what_you_use.Text.{Text, text}
use include_what_you_use.Output.Use.{SourceLocation}
use include_what_you_use.Preprocessor.{file_key, file_eq_iff, PreprocessorInfo, SourceApi, warn}
use include_what_you_use.Preprocessor.Pragma.{
  top_is, has_open_begin_exports, has_open_begin_keep, close_exports, close_keep,
  handle_file_pragma, handle_pragma, match_one_token,
}
use include_what_you_use.Preprocessor.Pragma.Same.{
  IsSpaced, IsInFile, HasRegions, SameRegions-HasRegions, SameOr, handle_file_pragma-SameOr,
}

module _ (api : SourceApi) where
  abbrev pub RegionsOr : Option PreprocessorInfo → Type 0
  RegionsOr none = Unit
  RegionsOr (some t) = HasRegions api t

  regions_or : (t : PreprocessorInfo) → HasRegions api t → RegionsOr (some t)
  regions_or t h = h

  same-RegionsOr :
      (s : PreprocessorInfo) (r : Option PreprocessorInfo)
      → HasRegions api s
      → SameOr api s r
      → RegionsOr r
  same-RegionsOr s none h same = tt
  same-RegionsOr s (some t) h same = SameRegions-HasRegions api s t same h

  close_exports-RegionsOr :
      (s : PreprocessorInfo) (loc : SourceLocation)
      → has_open_begin_exports api s (api.file_of_loc loc) ≡ true
      → HasRegions api s
      → RegionsOr (some (close_exports api s (api.file_of_loc loc) loc))
  unfolding close_exports has_open_begin_exports
  close_exports-RegionsOr s loc open_here h =
      by_stack s.begin_exports_location_stack open_here h.exports_spaced
    where
      by_stack :
          (stack : List SourceLocation)
          → top_is api stack (api.file_of_loc loc) ≡ true
          → IsSpaced api stack
          → HasRegions api (elim stack [
            | [] ↦ s
            | from ∷ stack' ↦ record s {
              begin_exports_location_stack = stack';
              export_location_ranges =
                  s.export_location_ranges ++ (api.file_of_loc loc, (from, loc)) ∷ [];
            }
          ])
      by_stack [] t spaced = h
      by_stack (from ∷ stack') t (_, spaced) = record {
        exports_spaced = spaced;
        keep_spaced = h.keep_spaced;
        exports_in_file =
            All-append (IsInFile api) s.export_location_ranges _ h.exports_in_file
              (((file_eq_iff (api.file_of_loc from) (api.file_of_loc loc)).0 t, refl), tt);
        keep_in_file = h.keep_in_file;
      }

  close_keep-RegionsOr :
      (s : PreprocessorInfo) (loc : SourceLocation)
      → has_open_begin_keep api s (api.file_of_loc loc) ≡ true
      → HasRegions api s
      → RegionsOr (some (close_keep api s (api.file_of_loc loc) loc))
  unfolding close_keep has_open_begin_keep
  close_keep-RegionsOr s loc open_here h =
      by_stack s.begin_keep_location_stack open_here h.keep_spaced
    where
      by_stack :
          (stack : List SourceLocation)
          → top_is api stack (api.file_of_loc loc) ≡ true
          → IsSpaced api stack
          → HasRegions api (elim stack [
            | [] ↦ s
            | from ∷ stack' ↦ record s {
              begin_keep_location_stack = stack';
              keep_location_ranges =
                  s.keep_location_ranges ++ (api.file_of_loc loc, (from, loc)) ∷ [];
            }
          ])
      by_stack [] t spaced = h
      by_stack (from ∷ stack') t (_, spaced) = record {
        exports_spaced = h.exports_spaced;
        keep_spaced = spaced;
        exports_in_file = h.exports_in_file;
        keep_in_file =
            All-append (IsInFile api) s.keep_location_ranges _ h.keep_in_file
              (((file_eq_iff (api.file_of_loc from) (api.file_of_loc loc)).0 t, refl), tt);
      }

  warn-RegionsOr :
      (s : PreprocessorInfo) (loc : SourceLocation) (message : Text)
      → HasRegions api s
      → RegionsOr (some (warn s loc message))
  warn-RegionsOr s loc message h = record {
    exports_spaced = h.exports_spaced;
    keep_spaced = h.keep_spaced;
    exports_in_file = h.exports_in_file;
    keep_in_file = h.keep_in_file;
  }

  open_exports-RegionsOr :
      (s : PreprocessorInfo) (loc : SourceLocation)
      → has_open_begin_exports api s (api.file_of_loc loc) ≡ false
      → HasRegions api s
      → RegionsOr
          (some (record s { begin_exports_location_stack = loc ∷ s.begin_exports_location_stack }))
  unfolding has_open_begin_exports
  open_exports-RegionsOr s loc shut h = record {
    exports_spaced = (shut, h.exports_spaced);
    keep_spaced = h.keep_spaced;
    exports_in_file = h.exports_in_file;
    keep_in_file = h.keep_in_file;
  }

  open_keep-RegionsOr :
      (s : PreprocessorInfo) (loc : SourceLocation)
      → has_open_begin_keep api s (api.file_of_loc loc) ≡ false
      → HasRegions api s
      → RegionsOr
          (some (record s { begin_keep_location_stack = loc ∷ s.begin_keep_location_stack }))
  unfolding has_open_begin_keep
  open_keep-RegionsOr s loc shut h = record {
    exports_spaced = h.exports_spaced;
    keep_spaced = (shut, h.keep_spaced);
    exports_in_file = h.exports_in_file;
    keep_in_file = h.keep_in_file;
  }

  pub handle_pragma-RegionsOr :
      (s : PreprocessorInfo) (loc : SourceLocation) (pragma_text : Text) (tokens : List Text)
      → HasRegions api s
      → RegionsOr (handle_pragma api s (api.file_of_loc loc) loc pragma_text tokens)
  unfolding handle_pragma
  handle_pragma-RegionsOr s loc pragma_text tokens h =
      elim (Bool-cases (has_open_begin_exports api s (api.file_of_loc loc))) [
        | inl open_exports ↦ rw open_exports (
            if-holds (λ t. RegionsOr (some t)) (match_one_token tokens (text "end_exports") 1)
              (close_exports-RegionsOr s loc open_exports h) (warn-RegionsOr s loc _ h))
        | inr no_exports ↦
            rw no_exports (elim (Bool-cases (has_open_begin_keep api s (api.file_of_loc loc))) [
              | inl open_keep ↦ rw open_keep (
                  if-holds (λ t. RegionsOr (some t)) (match_one_token tokens (text "end_keep") 1)
                    (close_keep-RegionsOr s loc open_keep h) (warn-RegionsOr s loc _ h))
              | inr no_keep ↦ rw no_keep (plain no_exports no_keep)
            ])
      ]
    where
      plain :
          has_open_begin_exports api s (api.file_of_loc loc) ≡ false
          → has_open_begin_keep api s (api.file_of_loc loc) ≡ false
          → RegionsOr (
              if match_one_token tokens (text "begin_exports") 1
              then some
                  (record s { begin_exports_location_stack = loc ∷ s.begin_exports_location_stack })
              else if match_one_token tokens (text "end_exports") 1
              then some (warn s loc (text "end_exports without a begin_exports"))
              else if match_one_token tokens (text "begin_keep") 1
              then some (record s { begin_keep_location_stack = loc ∷ s.begin_keep_location_stack })
              else if match_one_token tokens (text "end_keep") 1
              then some (warn s loc (text "end_keep without a begin_keep"))
              else handle_file_pragma api s (api.file_of_loc loc) loc pragma_text tokens)
      plain no_exports no_keep =
          if-holds RegionsOr (match_one_token tokens (text "begin_exports") 1)
            (open_exports-RegionsOr s loc no_exports h)
            (if-holds RegionsOr (match_one_token tokens (text "end_exports") 1)
              (warn-RegionsOr s loc _ h)
              (if-holds RegionsOr (match_one_token tokens (text "begin_keep") 1)
                (open_keep-RegionsOr s loc no_keep h)
                (if-holds RegionsOr (match_one_token tokens (text "end_keep") 1)
                  (warn-RegionsOr s loc _ h)
                  (same-RegionsOr s _ h (
                    handle_file_pragma-SameOr api s (api.file_of_loc loc) loc pragma_text
                      tokens)))))
