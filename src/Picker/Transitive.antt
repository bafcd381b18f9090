-- ===== src/Picker/Transitive.antt =====
-- The transitive closure of the maps: `ExpandOnce`, `MakeNodeTransitive`, `MakeMapTransitive`, and
-- `ExpandRegexes` and `FinalizeAddedIncludes` that use them.
pub mod Expand
pub mod Reach
pub mod Ends
use include_what_you_use.Base.{
  ℕ, zero, suc, Bool, true, false, not, ◌&&◌, ◌||◌, Option, none, some, List, [], ◌∷◌, ◌++◌,
  if◌then◌else◌, any_of, map, length, keep_if, drop,
}
use include_what_you_use.Base.Checked.{◌>>=◌, ◌>>◌, check}
use include_what_you_use.Text.{Text, text, text_eq, starts_with}
use include_what_you_use.Text.Order.{text_key}
use include_what_you_use.Container.{
  Map, Set, find_in_map, map_set, get_or_default, contains, set_insert, insert_all_into,
}
use include_what_you_use.Picker.{
  IncludePicker, MappedInclude, IncludeMap, PickerApi, mapped_include, mark_include, push_back,
  unused_visibility,
}

-- A list of nodes and the set of their names.
abbrev pub Seen : Type 0
Seen = List MappedInclude × Set Text

unfoldable pub add_node : Seen → MappedInclude → Seen
unfolding contains set_insert
add_node (nodes, seen) node =
    if contains seen node.quoted_include
    then (nodes, seen)
    else (nodes ++ node ∷ [], set_insert seen node.quoted_include)

unfoldable pub add_nodes : Seen → List MappedInclude → Seen
unfolding add_node
add_nodes acc [] = acc
add_nodes acc (node ∷ nodes) = add_nodes (add_node acc node) nodes

-- The children of a node: its value in the map.
unfoldable pub children_of : IncludeMap → Text → List MappedInclude
unfolding get_or_default
children_of m name = get_or_default m name []

unfoldable pub expand_nodes : IncludeMap → Seen → List MappedInclude → Seen
unfolding add_nodes children_of
expand_nodes m acc [] = acc
expand_nodes m acc (node ∷ nodes) =
    expand_nodes m (add_nodes (add_node acc node) (children_of m node.quoted_include)) nodes

unfoldable pub expand_once : IncludeMap → List MappedInclude → List MappedInclude
unfolding expand_nodes
expand_once m nodes = (expand_nodes m ([], []) nodes).0

pub data TransitiveStatus : Type 0 where
  unused calculating done : TransitiveStatus

-- The map that is closed, and what is known of its nodes.
abbrev pub Closing : Type 0
Closing = IncludeMap × Map Text TransitiveStatus

unfoldable pub status_of : Map Text TransitiveStatus → Text → TransitiveStatus
unfolding get_or_default
status_of seen key = get_or_default seen key unused

unfoldable pub for_children :
    (Text → Closing → Option Closing) → List MappedInclude → Closing → Option Closing
for_children visit [] st = some st
for_children visit (child ∷ children) st =
    visit child.quoted_include st >>= λ st'. for_children visit children st'

-- The end of a node: it is done, and its value is expanded.
unfoldable pub finish_node : Text → Closing → Closing
unfolding expand_once children_of map_set
finish_node key (m, seen) =
    (map_set m key (expand_once m (children_of m key)), map_set seen key done)

-- What is done for a node by its status and its value. A node that is being calculated is left alone.
unfoldable pub visit_node :
    (Text → Closing → Option Closing)
    → Text
    → Closing
    → TransitiveStatus
    → Option (List MappedInclude)
    → Option Closing
unfolding for_children finish_node map_set
visit_node visit key st calculating value = some st
visit_node visit key st done value = some st
visit_node visit key (m, seen) unused none = some (m, map_set seen key done)
visit_node visit key (m, seen) unused (some children) =
    for_children visit children (m, map_set seen key calculating) >>= λ st.
    some (finish_node key st)

-- `MakeNodeTransitive`, with fuel for the depth of the recursion.
unfoldable pub make_node_transitive : ℕ → Text → Closing → Option Closing
unfolding visit_node status_of find_in_map
make_node_transitive zero key st = none
make_node_transitive (suc fuel) key (m, seen) =
    visit_node (make_node_transitive fuel) key (m, seen) (status_of seen key) (find_in_map m key)

unfoldable pub make_keys_transitive : ℕ → List Text → Closing → Option Closing
unfolding make_node_transitive
make_keys_transitive fuel [] st = some st
make_keys_transitive fuel (key ∷ keys) st =
    make_node_transitive fuel key st >>= λ st'. make_keys_transitive fuel keys st'

-- One more round than there are keys is fuel enough.
unfoldable pub make_map_transitive : IncludeMap → Option IncludeMap
unfolding make_keys_transitive
make_map_transitive m =
    make_keys_transitive (suc (length m)) (map (λ e. e.0) m) (m, []) >>= λ (closed, seen).
    some closed

abbrev pub expand_values : IncludeMap → IncludeMap → IncludeMap
expand_values m = map (λ (key, value). (key, expand_once m value))

abbrev pub extract_keys_marked_as_regexes : {V : Type 0} → Map Text V → List Text
extract_keys_marked_as_regexes m = keep_if (λ key. starts_with key (text "@")) (map (λ e. e.0) m)

module _ (api : PickerApi) where
  -- The targets of a regex key, for one header that matches it.
  unfoldable pub push_targets :
      Text → Text → List MappedInclude → IncludePicker → Option IncludePicker
  unfolding mapped_include push_back
  push_targets hdr regex [] p = some p
  push_targets hdr regex (target ∷ targets) p = do
    mapped ← mapped_include (api.regex_replace hdr regex target.quoted_include) []
    push_targets hdr regex targets
        (record p { filepath_include_map = push_back p.filepath_include_map hdr mapped })

  unfoldable pub expand_include_keys : Text → List Text → IncludePicker → Option IncludePicker
  unfolding push_targets mark_include children_of get_or_default
  expand_include_keys hdr [] p = some p
  expand_include_keys hdr (regex_key ∷ keys) p =
      let regex = drop 1 regex_key in
      let map_to = children_of p.filepath_include_map regex_key in
      let is_match =
        api.regex_match hdr regex && not (any_of (λ t. text_eq t.quoted_include hdr) map_to) in
      (if is_match
        then (push_targets hdr regex map_to p >>= λ p'.
            mark_include p' hdr
              (get_or_default p'.include_visibility_map regex_key unused_visibility))
        else some p)
      >>= λ next. expand_include_keys hdr keys next

  unfoldable pub expand_friend_keys : Text → List Text → IncludePicker → IncludePicker
  unfolding map_set get_or_default insert_all_into
  expand_friend_keys hdr [] p = p
  expand_friend_keys hdr (regex_key ∷ keys) p =
      let friends = p.friend_to_headers_map in
      expand_friend_keys hdr keys (
        if api.regex_match hdr (drop 1 regex_key)
        then record p {
          friend_to_headers_map = map_set friends hdr (
              insert_all_into (get_or_default friends regex_key [])
                (get_or_default friends hdr []));
        }
        else p)

  unfoldable pub expand_headers :
      List Text → List Text → List Text → IncludePicker → Option IncludePicker
  unfolding expand_include_keys expand_friend_keys
  expand_headers include_keys friend_keys [] p = some p
  expand_headers include_keys friend_keys (hdr ∷ hdrs) p =
      expand_include_keys hdr include_keys p >>= λ p'.
      expand_headers include_keys friend_keys hdrs (expand_friend_keys hdr friend_keys p')

  unfoldable pub expand_regexes : IncludePicker → Option IncludePicker
  unfolding expand_headers
  expand_regexes p =
      expand_headers (extract_keys_marked_as_regexes p.filepath_include_map)
        (extract_keys_marked_as_regexes p.friend_to_headers_map)
        (map (λ e. e.0) p.quoted_includes_to_quoted_includers) p

  unfoldable pub finalize_added_includes : IncludePicker → Option IncludePicker
  unfolding expand_regexes make_map_transitive
  finalize_added_includes p = do
    check (not p.has_called_finalize_added_include_lines)
    expanded ← expand_regexes p
    closed ← make_map_transitive expanded.filepath_include_map
    some (record expanded {
      filepath_include_map = closed;
      symbol_include_map = expand_values closed expanded.symbol_include_map;
      fwd_decl_symbol_map = expand_values closed expanded.fwd_decl_symbol_map;
      has_called_finalize_added_include_lines = true;
    })
