-- ===== src/Picker/Queries.antt =====
-- iwyu_include_picker.cc: the queries that the uses ask, by a symbol, a declaration or a header.
pub mod Mapped
pub mod Mapping
use include_what_you_use.Base.{
  Bool, true, false, not, ◌||◌, Option, some, List, [], ◌∷◌, any_of, if◌then◌else◌, is_empty,
}
use include_what_you_use.Base.Checked.{◌>>=◌, ◌>>◌, check}
use include_what_you_use.Text.{Text, text_eq}
use include_what_you_use.Text.Order.{text_key}
use include_what_you_use.Container.{get_or_default}
use include_what_you_use.Picker.{
  IncludePicker, MappedInclude, PickerApi, unused_visibility, is_public, get_visibility,
  mapped_include, get_public_values, get_candidate_headers_for_symbol,
  best_quoted_includes_for_includer, get_candidate_headers_for_filepath_included_from,
}

unfoldable pub contains_quoted_include : List MappedInclude → Text → Bool
contains_quoted_include mapped_includes quoted_include =
    any_of (λ mapped. text_eq mapped.quoted_include quoted_include) mapped_includes

module _ (api : PickerApi) (p : IncludePicker) where
  unfoldable pub get_candidate_headers_for_symbol_fwd_decl : Text → Text → Option (List Text)
  unfolding get_public_values best_quoted_includes_for_includer
  get_candidate_headers_for_symbol_fwd_decl symbol including_filepath = do
    check p.has_called_finalize_added_include_lines
    values ← get_public_values p p.fwd_decl_symbol_map symbol
    best_quoted_includes_for_includer api p values including_filepath

  unfoldable pub get_candidate_headers_for_symbol_used_from : Text → Text → Option (List Text)
  unfolding get_candidate_headers_for_symbol best_quoted_includes_for_includer
  get_candidate_headers_for_symbol_used_from symbol including_filepath = do
    values ← get_candidate_headers_for_symbol p symbol
    best_quoted_includes_for_includer api p values including_filepath

  unfoldable pub has_mapping : Text → Text → Option Bool
  unfolding contains_quoted_include get_or_default
  has_mapping map_from_filepath map_to_filepath = do
    check p.has_called_finalize_added_include_lines
    quoted_from ← api.quote map_from_filepath
    quoted_to ← api.quote map_to_filepath
    some (
        contains_quoted_include (get_or_default p.filepath_include_map quoted_from []) quoted_to
        || text_eq quoted_to quoted_from)

  -- `IsPublic`, on the path of the file.
  unfoldable pub is_public_path : Text → Option Bool
  unfolding get_visibility mapped_include
  is_public_path path = do
    quoted_file ← api.quote path
    include ← mapped_include quoted_file path
    some (is_public (get_visibility p include unused_visibility))

  unfoldable pub get_mapped_public_headers : Text → Text → Text → Option (List Text)
  unfolding get_candidate_headers_for_symbol_used_from
      get_candidate_headers_for_filepath_included_from
  get_mapped_public_headers symbol_name use_path decl_filepath = do
    symbol_headers ← get_candidate_headers_for_symbol_used_from symbol_name use_path
    if not (is_empty symbol_headers)
        then some symbol_headers
        else get_candidate_headers_for_filepath_included_from api p decl_filepath use_path

  -- For a declaration: `cplusplus` is its language option, `written_name` its qualified name as
  -- `GetWrittenQualifiedNameAsString` gives it with and without the argument types.
  unfoldable pub get_mapped_public_headers_of_decl :
      Bool → (Bool → Text) → Text → Text → Option (List Text)
  unfolding get_candidate_headers_for_symbol_used_from
      get_candidate_headers_for_filepath_included_from
  get_mapped_public_headers_of_decl cplusplus written_name use_path decl_filepath = do
    with_fn_args ←
        (if cplusplus
          then get_candidate_headers_for_symbol_used_from (written_name true) use_path
          else some [])
    if not (is_empty with_fn_args) then some with_fn_args else (do
      symbol_headers ← get_candidate_headers_for_symbol_used_from (written_name false) use_path
      if not (is_empty symbol_headers)
          then some symbol_headers
          else get_candidate_headers_for_filepath_included_from api p decl_filepath use_path)

  unfoldable pub get_mapped_public_headers_of_header : Text → Text → Option (List Text)
  unfolding get_public_values best_quoted_includes_for_includer
  get_mapped_public_headers_of_header quoted_header use_path = do
    values ← get_public_values p p.filepath_include_map quoted_header
    best_quoted_includes_for_includer api p values use_path
