-- ===== src/PathUtil/SearchPaths.antt =====
-- iwyu_globals.cc: how the header search paths are put in order. The map of directories is the list of
-- its entries.
use include_what_you_use.Base.{Bool, Option, some, List, [], ◌∷◌, ltb, if◌then◌else◌, length}
use include_what_you_use.Base.Checked.{◌>>=◌}
use include_what_you_use.Text.{Text}
use include_what_you_use.PathUtil.{
  PathApi, PathType, HeaderSearchPath, make_absolute_path, normalize_dir_path,
}

-- `SortByDescendingLength`.
abbrev pub longer : HeaderSearchPath → HeaderSearchPath → Bool
longer left right = ltb (length right.path) (length left.path)

-- `sort` by it. The library leaves the order of paths of one length open; here it is that of the map.
unfoldable pub insert_by_length : HeaderSearchPath → List HeaderSearchPath → List HeaderSearchPath
insert_by_length p [] = p ∷ []
insert_by_length p (q ∷ qs) =
    let later = insert_by_length p qs in if longer q p then q ∷ later else p ∷ q ∷ qs

unfoldable pub sort_by_descending_length : List HeaderSearchPath → List HeaderSearchPath
unfolding insert_by_length
sort_by_descending_length [] = []
sort_by_descending_length (p ∷ ps) = insert_by_length p (sort_by_descending_length ps)

module _ (sys : PathApi) where
  -- The loop of `NormalizeHeaderSearchPaths`.
  unfoldable pub normalized_entries : List (Text × PathType) → Option (List HeaderSearchPath)
  unfolding normalize_dir_path
  normalized_entries [] = some []
  normalized_entries ((dir, path_type) ∷ dirs) = do
    absolute ← make_absolute_path sys dir
    later ← normalized_entries dirs
    some (record { path = normalize_dir_path sys absolute; path_type = path_type } ∷ later)

  unfoldable pub normalize_header_search_paths :
      List (Text × PathType) → Option (List HeaderSearchPath)
  unfolding normalized_entries sort_by_descending_length
  normalize_header_search_paths include_dirs_map = do
    include_dirs ← normalized_entries include_dirs_map
    some (sort_by_descending_length include_dirs)
