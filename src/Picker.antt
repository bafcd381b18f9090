-- ===== src/Picker.antt =====
-- iwyu_include_picker.h and iwyu_include_picker.cc: the maps from private headers and symbols to the public
-- headers that stand for them.
pub mod Mappings
pub mod Direct
pub mod Transitive
pub mod Public
pub mod Visibility
pub mod Queries
pub mod Written
mod Tests
use include_what_you_use.Base.{
  ℕ, zero, suc, ◌+◌, ◌-◌, Bool, true, false, not, ◌&&◌, ◌||◌, Option, none, some, List, [], ◌∷◌,
  ◌++◌, ◌==◌, ltb, if◌then◌else◌, is_empty, any_of, map, take, drop, length, keep_if,
}
use include_what_you_use.Base.Key.{Key}
use include_what_you_use.Base.Checked.{◌>>=◌, ◌>>◌, check}
use include_what_you_use.Text.{Text, text, text_eq, starts_with, find, strip_past}
use include_what_you_use.Text.Order.{text_key}
use include_what_you_use.Container.{
  Map, Set, find_in_map, map_set, map_insert, get_or_default, contains, set_insert, insert_all_into,
}
use include_what_you_use.PathUtil.{is_quoted_include, is_special_filename_or_stdin}
use include_what_you_use.Output.Use.{UseKind, full, fwd_decl}

pub data IncludeVisibility : Type 0 where
  unused_visibility public private : IncludeVisibility

pub record MappedInclude : Type 0 where
  pub quoted_include : Text
  pub path : Text

abbrev pub IncludeMap : Type 0
IncludeMap = Map Text (List MappedInclude)

abbrev pub VisibilityMap : Type 0
VisibilityMap = Map Text IncludeVisibility

-- The key of `includer_and_includee_to_include_as_written_`.
unfoldable pub pair_less : Text × Text → Text × Text → Bool
pair_less (a, b) (c, d) = text_key.less a c || (text_eq a c && text_key.less b d)

pub record IncludePicker : Type 0 where
  pub symbol_include_map : IncludeMap
  pub fwd_decl_symbol_map : IncludeMap
  pub filepath_include_map : IncludeMap
  pub include_visibility_map : VisibilityMap
  pub path_visibility_map : VisibilityMap
  pub quoted_includes_to_quoted_includers : Map Text (Set Text)
  pub include_as_written : List ((Text × Text) × Text)
  pub friend_to_headers_map : Map Text (Set Text)
  pub has_called_finalize_added_include_lines : Bool

-- What the picker asks of iwyu_path_util.cc and iwyu_regex.cc: `quote` is `ConvertToQuotedInclude`,
-- `quote_from` the same seen from the directory of an including file.
pub record PickerApi : Type 0 where
  pub quote : Text → Option Text
  pub quote_from : Text → Text → Option Text
  pub is_absolute : Text → Bool
  pub regex_match : Text → Text → Bool
  pub regex_replace : Text → Text → Text → Text

abbrev pub is_public : IncludeVisibility → Bool
is_public public = true
is_public private = false
is_public unused_visibility = false

unfoldable pub visibility_eq : IncludeVisibility → IncludeVisibility → Bool
visibility_eq unused_visibility unused_visibility = true
visibility_eq public public = true
visibility_eq private private = true
visibility_eq _ _ = false

unfoldable pub is_quoted_filepath_pattern : Text → Bool
unfolding is_quoted_include
is_quoted_filepath_pattern str = is_quoted_include str || starts_with str (text "@")

-- The constructor of `MappedInclude`, with its check.
unfoldable pub mapped_include : Text → Text → Option MappedInclude
unfolding is_quoted_include is_special_filename_or_stdin
mapped_include quoted path = do
  check (is_special_filename_or_stdin quoted || is_quoted_include quoted)
  some (record { quoted_include = quoted; path = path })

unfoldable pub mark_visibility :
    Bool → VisibilityMap → Text → IncludeVisibility → Option VisibilityMap
unfolding map_insert get_or_default visibility_eq
mark_visibility finalized m key visibility =
    let marked = map_insert m key visibility in
    check (not finalized)
    >> (check (visibility_eq (get_or_default marked key unused_visibility) visibility)
        >> some marked)

unfoldable pub mark_include : IncludePicker → Text → IncludeVisibility → Option IncludePicker
unfolding mark_visibility
mark_include p key visibility = do
  marked ←
      mark_visibility p.has_called_finalize_added_include_lines p.include_visibility_map key
        visibility
  some (record p { include_visibility_map = marked })

unfoldable pub mark_include_as_private : IncludePicker → Text → Option IncludePicker
unfolding mark_include is_quoted_filepath_pattern
mark_include_as_private p pattern_text = do
  check (not p.has_called_finalize_added_include_lines)
  check (is_quoted_filepath_pattern pattern_text)
  mark_include p pattern_text private

unfoldable pub mark_path_as_private : IncludePicker → Text → Option IncludePicker
unfolding mark_visibility
mark_path_as_private p path = do
  check (not p.has_called_finalize_added_include_lines)
  marked ←
      mark_visibility p.has_called_finalize_added_include_lines p.path_visibility_map path private
  some (record p { path_visibility_map = marked })

-- `m[key].push_back(value)`.
unfoldable pub push_back : IncludeMap → Text → MappedInclude → IncludeMap
unfolding map_set get_or_default
push_back m key value = map_set m key (get_or_default m key [] ++ value ∷ [])

unfoldable pub add_mapping : IncludePicker → Text → MappedInclude → Option IncludePicker
unfolding push_back is_quoted_filepath_pattern
add_mapping p map_from map_to = do
  check (not p.has_called_finalize_added_include_lines)
  check (is_quoted_filepath_pattern map_from)
  some (record p { filepath_include_map = push_back p.filepath_include_map map_from map_to })

unfoldable pub add_include_mapping :
    IncludePicker
    → Text
    → IncludeVisibility
    → MappedInclude
    → IncludeVisibility
    → Option IncludePicker
unfolding add_mapping mark_include
add_include_mapping p map_from from_visibility map_to to_visibility = do
  p₁ ← add_mapping p map_from map_to
  p₂ ← mark_include p₁ map_from from_visibility
  mark_include p₂ map_to.quoted_include to_visibility

unfoldable pub add_symbol_mapping :
    IncludePicker → Text → UseKind → MappedInclude → IncludeVisibility → Option IncludePicker
unfolding push_back mark_include
add_symbol_mapping p map_from full map_to to_visibility =
    mark_include (record p { symbol_include_map = push_back p.symbol_include_map map_from map_to })
      map_to.quoted_include to_visibility
add_symbol_mapping p map_from fwd_decl map_to to_visibility =
    mark_include
      (record p { fwd_decl_symbol_map = push_back p.fwd_decl_symbol_map map_from map_to })
      map_to.quoted_include to_visibility

unfoldable pub add_public_includes : IncludePicker → List Text → Option IncludePicker
unfolding mark_include
add_public_includes p [] = some p
add_public_includes p (include ∷ includes) = do
  p' ← mark_include p include public
  add_public_includes p' includes

unfoldable pub add_friend_regex : IncludePicker → Text → Text → IncludePicker
unfolding map_set get_or_default set_insert
add_friend_regex p includee_filepath quoted_friend_regex =
    let key = text "@" ++ quoted_friend_regex in
    record p {
      friend_to_headers_map =
          map_set p.friend_to_headers_map key
            (set_insert (get_or_default p.friend_to_headers_map key []) includee_filepath);
    }

-- `GetVisibility`: by the quoted name, else by the path.
unfoldable pub get_visibility :
    IncludePicker → MappedInclude → IncludeVisibility → IncludeVisibility
unfolding find_in_map get_or_default
get_visibility p include default_value =
    elim (find_in_map p.include_visibility_map include.quoted_include) [
      | some visibility ↦ visibility
      | none ↦ get_or_default p.path_visibility_map include.path default_value
    ]

-- The loop of `GetPublicValues`.
unfoldable pub public_values : IncludePicker → List MappedInclude → Option (List MappedInclude)
unfolding get_visibility
public_values p [] = some []
public_values p (value ∷ values) = do
  check (not (starts_with value.quoted_include (text "@")))
  rest ← public_values p values
  some (if is_public (get_visibility p value public) then value ∷ rest else rest)

unfoldable pub get_public_values : IncludePicker → IncludeMap → Text → Option (List MappedInclude)
unfolding public_values get_or_default
get_public_values p m key = do
  check (not (starts_with key (text "@")))
  public_values p (get_or_default m key [])

unfoldable pub get_candidate_headers_for_symbol : IncludePicker → Text → Option (List MappedInclude)
unfolding get_public_values
get_candidate_headers_for_symbol p symbol = do
  check p.has_called_finalize_added_include_lines
  get_public_values p p.symbol_include_map symbol

-- `MaybeGetIncludeNameAsWritten`: empty if there is none.
unfoldable pub include_name_as_written : List ((Text × Text) × Text) → Text → Text → Text
include_name_as_written [] includer includee = []
include_name_as_written (((a, b), written) ∷ m) includer includee =
    let later = include_name_as_written m includer includee in
    if text_eq a includer && text_eq b includee then written else later

module _ (api : PickerApi) where
  unfoldable pub has_absolute_quoted_include : MappedInclude → Bool
  has_absolute_quoted_include m =
      if not (starts_with m.quoted_include (text "\"")) || ltb (length m.quoted_include) 2
      then false
      else api.is_absolute (take (length m.quoted_include - 2) (drop 1 m.quoted_include))

  unfoldable pub best_quoted_includes_for_includer :
      IncludePicker → List MappedInclude → Text → Option (List Text)
  unfolding include_name_as_written has_absolute_quoted_include
  best_quoted_includes_for_includer p [] including_filepath = some []
  best_quoted_includes_for_includer p (m ∷ includes) including_filepath = do
    rest ← best_quoted_includes_for_includer p includes including_filepath
    let written = include_name_as_written p.include_as_written including_filepath m.path
    if not (is_empty written)
        then some (written ∷ rest)
        else if has_absolute_quoted_include m && not (is_empty m.path)
        then (api.quote_from m.path including_filepath >>= λ quoted. some (quoted ∷ rest))
        else some (m.quoted_include ∷ rest)

  unfoldable pub get_candidate_headers_for_filepath :
      IncludePicker → Text → Text → Option (List MappedInclude)
  unfolding get_public_values get_visibility mapped_include
  get_candidate_headers_for_filepath p filepath including_filepath = do
    check p.has_called_finalize_added_include_lines
    absolute_quoted_header ← api.quote filepath
    values ← get_public_values p p.filepath_include_map absolute_quoted_header
    quoted_header ←
        (if is_empty including_filepath
          then some absolute_quoted_header
          else api.quote_from filepath including_filepath)
    default_header ← mapped_include quoted_header filepath
    some (
        if is_empty values || is_public (get_visibility p default_header public)
        then default_header ∷ values
        else values)

  unfoldable pub get_candidate_headers_for_filepath_included_from :
      IncludePicker → Text → Text → Option (List Text)
  unfolding get_candidate_headers_for_filepath best_quoted_includes_for_includer mapped_include
      get_or_default contains
  get_candidate_headers_for_filepath_included_from p included_filepath including_filepath = do
    quoted_includer ← api.quote_from including_filepath including_filepath
    quoted_includee ← api.quote_from included_filepath including_filepath
    mapped ←
        (if contains (get_or_default p.friend_to_headers_map quoted_includer []) included_filepath
          then (mapped_include quoted_includee including_filepath >>= λ m. some (m ∷ []))
          else get_candidate_headers_for_filepath p included_filepath including_filepath)
    best_quoted_includes_for_includer p mapped including_filepath
