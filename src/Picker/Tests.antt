-- ===== src/Picker/Tests.antt =====
-- A run of each theorem on a small map, which has a cycle.
use include_what_you_use.Base.{
  true, false, none, some, [], ◌∷◌, ◌&&◌, ◌≡◌, refl, ◌⊎◌, ◌↔◌, Bool, All, Elem, is_empty, List,
}
use include_what_you_use.Text.{Text, text, text_eq, text_less, starts_with, find}
use include_what_you_use.Text.Order.{text_key}
use include_what_you_use.Container.{find_in_map, get_or_default}
use include_what_you_use.Picker.{
  visibility_eq, is_quoted_filepath_pattern, mapped_include, add_include_mapping, IncludePicker,
  IncludeMap, MappedInclude, VisibilityMap, IncludeVisibility, public, private, unused_visibility,
  mark_visibility, get_public_values, get_candidate_headers_for_filepath,
  get_candidate_headers_for_filepath_included_from, best_quoted_includes_for_includer,
  include_name_as_written,
}
use include_what_you_use.Picker.Mappings.{
  MappingApi, items, directives, sequence, add_mappings_from_file, find_file_in_search_path,
  add_items, add_directives, add_directive, add_include_directive, get_sequence_value,
  parse_visibility,
}
use include_what_you_use.Picker.Direct.{add_direct_include}
use include_what_you_use.Picker.Transitive.{make_map_transitive, children_of}
use include_what_you_use.Picker.Transitive.Expand.{names}
use include_what_you_use.Picker.Transitive.Reach.{Leads, make_map_transitive-Leads}
use include_what_you_use.Picker.Transitive.Ends.{make_map_transitive-ends}
use include_what_you_use.Picker.Public.{IsVisible, get_public_values_lem, candidates-IsVisible}
use include_what_you_use.Picker.Queries.{has_mapping, get_mapped_public_headers_of_decl}
use include_what_you_use.Picker.Queries.Mapping.{has_mapping_lem}
use include_what_you_use.Picker.Queries.Mapped.{IsOrigin, get_mapped_public_headers_of_decl_lem}
use include_what_you_use.Picker.Written.{add_direct_include-written}
use include_what_you_use.Picker.Visibility.{mark_visibility-keeps}
use include_what_you_use.Samples.{picker_api, sys, empty_picker}

abbrev node : Text → MappedInclude
node name = record { quoted_include = name; path = [] }

abbrev a : Text
a = text "\"a\""

abbrev b : Text
b = text "\"b\""

abbrev d : Text
d = text "\"d\""

abbrev e : Text
e = text "\"e\""

-- `a` maps to `b` and `d`, `d` to `e`, and `b` back to `a`.
abbrev circle : IncludeMap
circle = (a, node b ∷ node d ∷ []) ∷ (b, node a ∷ []) ∷ (d, node e ∷ []) ∷ []

abbrev closed_circle : IncludeMap
closed_circle =
    (a, node b ∷ node a ∷ node d ∷ node e ∷ [])
    ∷ (b, node a ∷ node b ∷ node d ∷ [])
    ∷ (d, node e ∷ [])
    ∷ []

make_map_transitive-ends_example :
    (closed : IncludeMap) × (make_map_transitive circle ≡ some closed)
make_map_transitive-ends_example = make_map_transitive-ends circle

-- The entry of `b` lacks `e`, to which it leads.
circle-closed : make_map_transitive circle ≡ some closed_circle
unfolding make_map_transitive text_eq text_less
circle-closed = refl

make_map_transitive-Leads_example :
    ((j : Text) (v : MappedInclude)
      → Elem v (children_of closed_circle j)
      → Leads circle j v.quoted_include)
    × ((j x : Text)
        → Elem x (names (children_of circle j))
        → Elem x (names (children_of closed_circle j)))
make_map_transitive-Leads_example = make_map_transitive-Leads circle closed_circle circle-closed

-- A picker in which `a` is private and maps to `b` and `d`, of which `d` is private.
abbrev picker : IncludePicker
picker = record {
  symbol_include_map = [];
  fwd_decl_symbol_map = [];
  filepath_include_map = (a, node b ∷ node d ∷ []) ∷ [];
  include_visibility_map = (a, private) ∷ (d, private) ∷ [];
  path_visibility_map = [];
  quoted_includes_to_quoted_includers = [];
  include_as_written = [];
  friend_to_headers_map = [];
  has_called_finalize_added_include_lines = true;
}

public_of_a : get_public_values picker picker.filepath_include_map a ≡ some (node b ∷ [])
unfolding get_public_values text_eq text_less starts_with
public_of_a = refl

get_public_values_lem_example :
    All (IsVisible picker) (node b ∷ [])
    × ((v : MappedInclude)
        → Elem v (get_or_default picker.filepath_include_map a [])
        → IsVisible picker v
        → Elem v (node b ∷ []))
    × ((v : MappedInclude)
        → Elem v (node b ∷ [])
        → Elem v (get_or_default picker.filepath_include_map a []))
get_public_values_lem_example =
    get_public_values_lem picker picker.filepath_include_map a (node b ∷ []) public_of_a

candidates_of_a :
    get_candidate_headers_for_filepath picker_api picker (text "a") [] ≡ some (node b ∷ [])
unfolding get_candidate_headers_for_filepath text_eq text_less starts_with
candidates_of_a = refl

candidates-IsVisible_example :
    (is_empty (node b ∷ []) ≡ false)
    × (All (IsVisible picker) (node b ∷ [])
        ⊎ ((self : MappedInclude) × (node b ∷ [] ≡ self ∷ []) × (self.path ≡ text "a")))
candidates-IsVisible_example =
    candidates-IsVisible picker_api picker (text "a") [] (node b ∷ []) candidates_of_a

abbrev visibilities : VisibilityMap
visibilities = (a, private) ∷ []

abbrev more_visibilities : VisibilityMap
more_visibilities = (a, private) ∷ (b, public) ∷ []

b-marked : mark_visibility false visibilities b public ≡ some more_visibilities
unfolding mark_visibility text_eq text_less
b-marked = refl

mark_visibility-keeps_example :
    (get_or_default more_visibilities b unused_visibility ≡ public)
    × ((j : Text) (v : IncludeVisibility)
        → find_in_map visibilities j ≡ some v
        → find_in_map more_visibilities j ≡ some v)
mark_visibility-keeps_example =
    mark_visibility-keeps false visibilities more_visibilities b public b-marked

-- To make a public header private ends the program.
a-not_marked : mark_visibility false visibilities a public ≡ none
unfolding mark_visibility text_eq text_less
a-not_marked = refl

-- The function `f` is mapped to `b` and `d`, of which `d` is private.
abbrev symbol_picker : IncludePicker
symbol_picker = record picker { symbol_include_map = (text "f(int)", node b ∷ node d ∷ []) ∷ [] }

abbrev name_of_f : Bool → Text
name_of_f true = text "f(int)"
name_of_f false = text "f"

headers_of_f :
    get_mapped_public_headers_of_decl picker_api symbol_picker true name_of_f (text "u") (text "x")
    ≡ some (b ∷ [])
unfolding get_mapped_public_headers_of_decl text_eq text_less starts_with
headers_of_f = refl

get_mapped_public_headers_of_decl_lem_example :
    (is_empty (b ∷ []) ≡ false)
    × (values : List MappedInclude) × (best_quoted_includes_for_includer picker_api symbol_picker
          values
          (text "u")
        ≡ some (b ∷ []))
    × IsOrigin picker_api symbol_picker (text "x") (text "u") values
    × ((v : MappedInclude)
        → true ≡ true
        → Elem v (get_or_default symbol_picker.symbol_include_map (name_of_f true) [])
        → IsVisible symbol_picker v
        → Elem v values)
get_mapped_public_headers_of_decl_lem_example =
    get_mapped_public_headers_of_decl_lem picker_api symbol_picker true name_of_f (text "u")
      (text "x") (b ∷ []) headers_of_f

has_mapping_lem_example :
    (answer : Bool) × (has_mapping picker_api picker (text "a") (text "b") ≡ some answer)
    × ((answer ≡ true) ↔ (
        (b ≡ a)
        ⊎ ((v : MappedInclude) × Elem v (get_or_default picker.filepath_include_map a [])
            × (v.quoted_include ≡ b))))
has_mapping_lem_example = has_mapping_lem picker_api picker (text "a") (text "b") a b refl refl refl

-- A friend that writes the private header `x` as `"dir/x"` is still told `"x"`.
abbrev friend_picker : IncludePicker
friend_picker = record picker {
  friend_to_headers_map = (text "\"u\"", text "x" ∷ []) ∷ [];
  include_as_written = ((text "u", text "x"), text "\"dir/x\"") ∷ [];
}

friend-not_as_written :
    get_candidate_headers_for_filepath_included_from picker_api friend_picker (text "x") (text "u")
    ≡ some (text "\"x\"" ∷ [])
unfolding get_candidate_headers_for_filepath_included_from text_eq text_less starts_with
friend-not_as_written = refl

-- A picker that still takes includes, before and after `u` includes `y`.
abbrev open_picker : IncludePicker
open_picker = record picker { has_called_finalize_added_include_lines = false }

abbrev noted_picker : IncludePicker
noted_picker = record open_picker {
  quoted_includes_to_quoted_includers = (text "\"y\"", text "\"u\"" ∷ []) ∷ [];
  include_as_written = ((text "u", text "y"), text "\"dir/y\"") ∷ [];
}

y-added :
    add_direct_include picker_api open_picker (text "u") (text "y") (text "\"dir/y\"")
    ≡ some noted_picker
unfolding add_direct_include text_eq text_less starts_with find
y-added = refl

add_direct_include-written_example :
    (include_name_as_written noted_picker.include_as_written (text "u") (text "y")
      ≡ text "\"dir/y\"")
    × ((c d : Text)
        → (text_eq (text "u") c && text_eq (text "y") d) ≡ false
        → include_name_as_written noted_picker.include_as_written c d
          ≡ include_name_as_written open_picker.include_as_written c d)
add_direct_include-written_example =
    add_direct_include-written picker_api open_picker noted_picker (text "u") (text "y")
      (text "\"dir/y\"") y-added

-- A mapping file that says where `a` is found, in one directive, and then has a wrong one.
abbrev mapping_api : MappingApi
mapping_api = record {
  paths = sys;
  exists = λ path. true;
  read = λ path. items (
      directives (
        (text "include", sequence (a ∷ text "private" ∷ b ∷ text "public" ∷ []))
        ∷ (text "include", sequence (d ∷ []))
        ∷ (text "include", sequence (d ∷ text "private" ∷ b ∷ text "public" ∷ []))
        ∷ [])
      ∷ []);
}

mappings-added :
    add_mappings_from_file mapping_api 1 (text "m.imp") [] empty_picker
    ≡ some (record empty_picker {
      filepath_include_map = (a, node b ∷ []) ∷ [];
      include_visibility_map = (a, private) ∷ (b, public) ∷ [];
    })
unfolding add_mappings_from_file find_file_in_search_path add_items add_directives add_directive
    text_eq add_include_directive get_sequence_value visibility_eq parse_visibility
    is_quoted_filepath_pattern mapped_include add_include_mapping text_less
mappings-added = refl
