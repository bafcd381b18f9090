-- ===== src/Picker/Mappings.antt =====
-- AddMappingsFromFile of iwyu_include_picker.cc. What llvm reads from a mapping file is a parameter: a node is
-- given by what GetScalarValue and GetSequenceValue take from it.
use include_what_you_use.Base.{
  ℕ, zero, suc, Bool, true, false, not, ◌||◌, Option, none, some, List, [], ◌∷◌, ◌++◌,
  if◌then◌else◌, is_empty,
}
use include_what_you_use.Base.Checked.{◌>>=◌, ◌>>◌, check}
use include_what_you_use.Text.{Text, text, text_eq}
use include_what_you_use.Text.Order.{text_key}
use include_what_you_use.Container.{contains}
use include_what_you_use.PathUtil.{
  PathApi, is_quoted_include, make_absolute_path, make_absolute_path_from, get_parent_path,
}
use include_what_you_use.Output.Use.{UseKind, full, fwd_decl}
use include_what_you_use.Picker.{
  IncludePicker, IncludeVisibility, public, private, unused_visibility, visibility_eq,
  mapped_include, is_quoted_filepath_pattern, add_include_mapping, add_symbol_mapping,
}

pub data YamlNode : Type 0 where
  scalar : Text → YamlNode
  sequence : List Text → YamlNode
  other_node : YamlNode

pub data MappingItem : Type 0 where
  directives : List (Text × YamlNode) → MappingItem
  no_object : MappingItem

pub data MappingFile : Type 0 where
  unreadable empty_stream no_array : MappingFile
  items : List MappingItem → MappingFile

pub record MappingApi : Type 0 where
  pub paths : PathApi
  pub exists : Text → Bool
  pub read : Text → MappingFile

unfoldable pub get_scalar_value : YamlNode → Text
get_scalar_value (scalar value) = value
get_scalar_value _ = []

unfoldable pub get_sequence_value : YamlNode → List Text
get_sequence_value (sequence values) = values
get_sequence_value _ = []

unfoldable pub parse_use_kind : Text → Option UseKind
parse_use_kind use_kind =
    if text_eq use_kind (text "full") || text_eq use_kind (text "private")
    then some full
    else if text_eq use_kind (text "fwd-decl")
    then some fwd_decl
    else none

unfoldable pub parse_visibility : Text → IncludeVisibility
parse_visibility visibility =
    if text_eq visibility (text "private")
    then private
    else if text_eq visibility (text "public")
    then public
    else unused_visibility

abbrev pub is_unknown : Text → Bool
is_unknown visibility = visibility_eq (parse_visibility visibility) unused_visibility

-- A directive goes on to the next one, or prints an error and ends the file; the picker keeps what it has.
unfoldable pub add_symbol_directive : IncludePicker → List Text → Option (Bool × IncludePicker)
add_symbol_directive p (map_from ∷ use_kind ∷ to ∷ visibility ∷ []) =
    if is_unknown visibility || not (is_quoted_include to)
    then some (false, p)
    else elim (parse_use_kind use_kind) [
      | none ↦ some (false, p)
      | some kind ↦ (do
        map_to ← mapped_include to []
        mapped ← add_symbol_mapping p map_from kind map_to (parse_visibility visibility)
        some (true, mapped))
    ]
add_symbol_directive p _ = some (false, p)

unfoldable pub add_include_directive : IncludePicker → List Text → Option (Bool × IncludePicker)
add_include_directive p (map_from ∷ from_visibility ∷ to ∷ to_visibility ∷ []) =
    if is_unknown from_visibility
      || is_unknown to_visibility
      || not (is_quoted_filepath_pattern map_from)
      || not (is_quoted_include to)
    then some (false, p)
    else (do
      map_to ← mapped_include to []
      mapped ←
          add_include_mapping p map_from (parse_visibility from_visibility) map_to
            (parse_visibility to_visibility)
      some (true, mapped))
add_include_directive p _ = some (false, p)

module _ (api : MappingApi) where
  unfoldable pub extend_mapping_file_search_path : List Text → Text → Option (List Text)
  extend_mapping_file_search_path search_path new_path = do
    check (api.paths.is_absolute new_path)
    some (if contains search_path new_path then search_path else search_path ++ new_path ∷ [])

  unfoldable pub first_existing : List Text → Text → Text
  first_existing [] filename = filename
  first_existing (base_path ∷ search_path) filename =
      let later = first_existing search_path filename in
      let candidate = make_absolute_path_from api.paths base_path filename in
      if api.exists candidate then candidate else later

  unfoldable pub find_file_in_search_path : List Text → Text → Option Text
  find_file_in_search_path search_path filename =
      if api.exists filename
      then make_absolute_path api.paths filename
      else some (
          if not (api.paths.is_absolute filename)
          then first_existing search_path filename
          else filename)

  -- `load` is the recursive call, and `absolute_path` the file of the directive.
  module _ (load : Text → List Text → IncludePicker → Option IncludePicker)
      (search_path : List Text) (absolute_path : Text) where
    unfoldable pub add_directive : IncludePicker → Text × YamlNode → Option (Bool × IncludePicker)
    add_directive p (directive, node) =
        if text_eq directive (text "symbol")
        then add_symbol_directive p (get_sequence_value node)
        else if text_eq directive (text "include")
        then add_include_directive p (get_sequence_value node)
        else if text_eq directive (text "ref")
        then (if is_empty (get_scalar_value node) then some (false, p) else (do
          extended ←
              extend_mapping_file_search_path search_path (get_parent_path api.paths absolute_path)
          loaded ← load (get_scalar_value node) extended p
          some (true, loaded)))
        else some (false, p)

    unfoldable pub add_directives :
        IncludePicker → List (Text × YamlNode) → Option (Bool × IncludePicker)
    add_directives p [] = some (true, p)
    add_directives p (directive ∷ rest) = do
      (goes_on, added) ← add_directive p directive
      if goes_on then add_directives added rest else some (false, added)

    unfoldable pub add_items : IncludePicker → List MappingItem → Option IncludePicker
    add_items p [] = some p
    add_items p (no_object ∷ rest) = some p
    add_items p (directives pairs ∷ rest) = do
      (goes_on, added) ← add_directives p pairs
      if goes_on then add_items added rest else some added

  -- With fuel for the depth of the references: a file that refers to itself never ends, in the program neither.
  unfoldable pub add_mappings_from_file :
      ℕ → Text → List Text → IncludePicker → Option IncludePicker
  add_mappings_from_file zero filename search_path p = none
  add_mappings_from_file (suc fuel) filename search_path p = do
    absolute_path ← find_file_in_search_path search_path filename
    elim (api.read absolute_path) [
      | items found ↦ add_items (add_mappings_from_file fuel) search_path absolute_path p found
      | _ ↦ some p
    ]
