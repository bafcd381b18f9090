-- ===== src/Preprocessor/Pragma/Same.antt =====
-- The pragmas that leave the regions as they are.
use include_what_you_use.Base.{
  false, not, ◌&&◌, Option, none, some, List, [], ◌∷◌, ◌++◌, ◌≡◌, refl, All, if-holds,
}
use include_what_you_use.Base.Checked.{◌>>=◌}
use include_what_you_use.Text.{Text, text}
use include_what_you_use.Output.Use.{SourceLocation}
use include_what_you_use.Picker.{
  mapped_include, add_mapping, mark_include_as_private, mark_path_as_private,
}
use include_what_you_use.PathUtil.{is_quoted_include}
use include_what_you_use.Preprocessor.{
  File, file_key, SourceRange, PreprocessorInfo, SourceApi, warn, quoted_path, get_file_path,
  normalize_namespaces,
}
use include_what_you_use.Lexer.{is_valid}
use include_what_you_use.Container.{set_insert}
use include_what_you_use.Preprocessor.Pragma.{
  match_two_tokens, token_at, top_is, private_include, private_path, no_include, no_forward_declare,
  friend, handle_file_pragma, match_one_token,
}

module _ (api : SourceApi) where
  -- No two regions of one file stand directly on each other.
  abbrev pub IsSpaced : List SourceLocation → Type 0
  IsSpaced [] = Unit
  IsSpaced (loc ∷ stack) = (top_is api stack (api.file_of_loc loc) ≡ false) × IsSpaced stack

  -- A range begins and ends in the file that it is kept for.
  abbrev pub IsInFile : File × SourceRange → Type 0
  IsInFile (file, (from, to)) = (api.file_of_loc from ≡ file) × (api.file_of_loc to ≡ file)

  pub record HasRegions (s : PreprocessorInfo) : Type 0 where
    pub exports_spaced : IsSpaced s.begin_exports_location_stack
    pub keep_spaced : IsSpaced s.begin_keep_location_stack
    pub exports_in_file : All IsInFile s.export_location_ranges
    pub keep_in_file : All IsInFile s.keep_location_ranges

  -- The same stacks and ranges.
  pub record SameRegions (s t : PreprocessorInfo) : Type 0 where
    pub exports : t.begin_exports_location_stack ≡ s.begin_exports_location_stack
    pub keep : t.begin_keep_location_stack ≡ s.begin_keep_location_stack
    pub export_ranges : t.export_location_ranges ≡ s.export_location_ranges
    pub keep_ranges : t.keep_location_ranges ≡ s.keep_location_ranges

  pub SameRegions-HasRegions :
      (s t : PreprocessorInfo) → SameRegions s t → HasRegions s → HasRegions t
  SameRegions-HasRegions s t same h = record {
    exports_spaced = rw same.exports h.exports_spaced;
    keep_spaced = rw same.keep h.keep_spaced;
    exports_in_file = rw same.export_ranges h.exports_in_file;
    keep_in_file = rw same.keep_ranges h.keep_in_file;
  }

  abbrev pub SameOr : PreprocessorInfo → Option PreprocessorInfo → Type 0
  SameOr s none = Unit
  SameOr s (some t) = SameRegions s t

  same4 :
      (s t : PreprocessorInfo)
      → t.begin_exports_location_stack ≡ s.begin_exports_location_stack
      → t.begin_keep_location_stack ≡ s.begin_keep_location_stack
      → t.export_location_ranges ≡ s.export_location_ranges
      → t.keep_location_ranges ≡ s.keep_location_ranges
      → SameOr s (some t)
  same4 s t e k er kr = record { exports = e; keep = k; export_ranges = er; keep_ranges = kr }

  bind-SameOr :
      {A : Type 0} (s : PreprocessorInfo) (m : Option A) (f : A → Option PreprocessorInfo)
      → ((a : A) → SameOr s (f a))
      → SameOr s (m >>= f)
  bind-SameOr s none f h = tt
  bind-SameOr s (some a) f h = h a

  private_include-SameOr :
      (s : PreprocessorInfo) (loc : SourceLocation) (suggested : Text)
      → SameOr s (private_include api s loc suggested)
  unfolding private_include
  private_include-SameOr s loc suggested =
      if-holds (SameOr s) (not (is_quoted_include suggested)) (same4 s _ refl refl refl refl) (
        bind-SameOr s (quoted_path api (api.file_of_loc loc)) _ λ quoted_this_file.
          bind-SameOr s (mapped_include suggested []) _ λ map_to.
            bind-SameOr s (add_mapping s.picker quoted_this_file map_to) _ λ mapped.
              bind-SameOr s (mark_include_as_private mapped quoted_this_file) _
                λ marked. same4 s _ refl refl refl refl)

  private_path-SameOr :
      (s : PreprocessorInfo) (loc : SourceLocation) → SameOr s (private_path api s loc)
  unfolding private_path
  private_path-SameOr s loc =
      bind-SameOr s (mark_path_as_private s.picker (get_file_path api (api.file_of_loc loc))) _
        λ marked. same4 s _ refl refl refl refl

  no_include-SameOr :
      (s : PreprocessorInfo) (file : File) (loc : SourceLocation) (inhibited : Text)
      → SameOr s (some (no_include api s file loc inhibited))
  unfolding no_include
  no_include-SameOr s file loc inhibited =
      if-holds (λ t. SameOr s (some t)) (not (is_quoted_include inhibited))
        (same4 s _ refl refl refl refl) (same4 s _ refl refl refl refl)

  no_forward_declare-SameOr :
      (s : PreprocessorInfo) (file : File) (symbol : Text)
      → SameOr s (no_forward_declare api s file symbol)
  unfolding no_forward_declare
  no_forward_declare-SameOr s file symbol =
      bind-SameOr s (normalize_namespaces symbol) _ λ normalized. same4 s _ refl refl refl refl

  friend-SameOr :
      (s : PreprocessorInfo) (loc : SourceLocation) (regex : Text)
      → SameOr s (some (friend api s loc regex))
  unfolding friend
  friend-SameOr s loc regex = same4 s _ refl refl refl refl

  pub handle_file_pragma-SameOr :
      (s : PreprocessorInfo) (this_file : File) (begin_loc : SourceLocation) (pragma_text : Text)
      (tokens : List Text)
      → SameOr s (handle_file_pragma api s this_file begin_loc pragma_text tokens)
  unfolding handle_file_pragma
  handle_file_pragma-SameOr s this_file begin_loc pragma_text tokens =
      if-holds (SameOr s) (match_two_tokens tokens (text "private,") (text "include") 3)
        (private_include-SameOr s begin_loc (token_at tokens 2))
        (if-holds (SameOr s) (match_one_token tokens (text "private") 1)
          (private_path-SameOr s begin_loc)
          (if-holds (SameOr s) (match_one_token tokens (text "no_include") 2)
            (no_include-SameOr s this_file begin_loc (token_at tokens 1))
            (if-holds (SameOr s) (match_one_token tokens (text "no_forward_declare") 2)
              (no_forward_declare-SameOr s this_file (token_at tokens 1))
              (if-holds (SameOr s) (match_one_token tokens (text "friend") 2)
                (friend-SameOr s begin_loc (token_at tokens 1))
                (if-holds (SameOr s) (match_one_token tokens (text "associated") 1)
                  (if-holds (λ t. SameOr s (some t)) (is_valid s.associated_pragma_location)
                    (same4 s s refl refl refl refl)
                    (same4 s (record s { associated_pragma_location = begin_loc }) refl refl refl
                      refl))
                  (if-holds (SameOr s) (match_one_token tokens (text "always_keep") 1)
                    (same4 s
                      (record s { always_keep_files = set_insert s.always_keep_files this_file })
                      refl refl refl refl)
                    (if-holds (SameOr s)
                      (not (match_one_token tokens (text "keep") 1)
                        && not (match_one_token tokens (text "export") 1))
                      (same4 s
                        (warn s begin_loc
                          (text "Unknown or malformed pragma (" ++ (pragma_text ++ text ")")))
                        refl refl refl refl)
                      (same4 s s refl refl refl refl))))))))
