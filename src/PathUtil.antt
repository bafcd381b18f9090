-- ===== src/PathUtil.antt =====
-- iwyu_path_util.cc, and the search paths of iwyu_globals.cc. A `CHECK_` that fails is `none`.
-- The functions of llvm::sys are the parameter `sys`; `header_search_paths`, which the program keeps in
-- a global variable, is the parameter `search_paths`.
pub mod SearchPaths
pub mod Quotes
pub mod Names
pub mod Search
pub mod Canonical
mod Tests
use include_what_you_use.Base.{
  ℕ, zero, suc, ◌+◌, ◌-◌, Bool, true, false, not, ◌&&◌, ◌||◌, Option, none, some, List, [], ◌∷◌,
  ◌++◌, leb, ltb, ◌==◌, if◌then◌else◌, length, take, drop, is_empty, any_of, map,
}
use include_what_you_use.Base.Checked.{◌>>=◌, ◌>>◌, check}
use include_what_you_use.Text.{
  Text, text, text_eq, starts_with, ends_with, find, strip_left, strip_right,
}

-- llvm::sys::path and llvm::sys::fs. `make_absolute` may fail; `remove_dots` is called with
-- `remove_dot_dot=true`.
pub record PathApi : Type 0 where
  pub extension : Text → Text
  pub remove_dots : Text → Text
  pub convert_to_slash : Text → Text
  pub is_absolute : Text → Bool
  pub make_absolute : Text → Option Text
  pub append : Text → Text → Text
  pub parent_path : Text → Text

pub data PathType : Type 0 where
  unused_path system_path user_path : PathType

pub record HeaderSearchPath : Type 0 where
  pub path : Text
  pub path_type : PathType

unfoldable pub is_special_filename : Text → Bool
unfolding text_eq
is_special_filename name =
    text_eq name (text "<built-in>")
    || text_eq name (text "<command line>")
    || text_eq name (text "<scratch space>")
    || text_eq name (text "<inline asm>")

unfoldable pub is_special_filename_or_stdin : Text → Bool
unfolding is_special_filename
is_special_filename_or_stdin name = text_eq name (text "<stdin>") || is_special_filename name

-- `front()` and `back()` of a string that is not empty.
abbrev pub front_is : ℕ → Text → Bool
front_is c [] = false
front_is c (x ∷ _) = x == c

abbrev pub back_is : ℕ → Text → Bool
back_is c [] = false
back_is c (x ∷ []) = x == c
back_is c (_ ∷ y ∷ s) = back_is c (y ∷ s)

unfoldable pub is_quoted_include : Text → Bool
unfolding is_special_filename_or_stdin
is_quoted_include s =
    if ltb (length s) 3
    then false
    else if front_is b'<' s && back_is b'>' s
    then not (is_special_filename_or_stdin s)
    else front_is b'"' s && back_is b'"' s

unfoldable pub add_quotes : Text → Bool → Text
add_quotes include_name angled =
    if angled then b'<' ∷ (include_name ++ b'>' ∷ []) else b'"' ∷ (include_name ++ b'"' ∷ [])

abbrev pub source_extensions : List Text
source_extensions =
    text ".c"
    ∷ text ".C"
    ∷ text ".cc"
    ∷ text ".CC"
    ∷ text ".cxx"
    ∷ text ".CXX"
    ∷ text ".cpp"
    ∷ text ".CPP"
    ∷ text ".c++"
    ∷ text ".C++"
    ∷ text ".cp"
    ∷ []

abbrev pub header_extensions : List Text
header_extensions =
    text ".h" ∷ text ".H" ∷ text ".hpp" ∷ text ".hxx" ∷ text ".hh" ∷ text ".inl" ∷ []

-- `path.rfind(c)`.
unfoldable pub rfind : Text → ℕ → Option ℕ
rfind [] c = none
rfind (x ∷ s) c = elim (rfind s c) [
  | some pos ↦ some (suc pos)
  | none ↦ if x == c then some 0 else none
]

unfoldable pub basename : Text → Text
unfolding rfind
basename path = elim (rfind path b'/') [
  | none ↦ path
  | some last_slash ↦ drop (last_slash + 1) path
]

-- `StripRight` with each suffix in turn, up to the first that is there.
unfoldable pub strip_first : List Text → Text → Bool × Text
unfolding strip_right
strip_first [] path = (false, path)
strip_first (e ∷ es) path =
    let later = strip_first es path in
    let here = strip_right path e in if here.0 then here else later

abbrev pub is_system : PathType → Bool
is_system system_path = true
is_system user_path = false
is_system unused_path = false

-- The first `from` becomes `to`.
unfoldable pub replace_first : Text → Text → Text → Text
unfolding find
replace_first s from to = elim (find s from) [
  | none ↦ s
  | some pos ↦ take pos s ++ (to ++ drop (pos + length from) s)
]

unfoldable pub strip_extension : Text → Text
unfolding strip_first
strip_extension path =
    let stripped = strip_first header_extensions path in
    if stripped.0 then stripped.1 else (strip_first source_extensions path).1

-- `_unittest`, `_regtest` or `_test` behind, or else `test_headercompile_` in front.
unfoldable pub strip_test_name : Text → Text
unfolding strip_first strip_left
strip_test_name path =
    let stripped = strip_first (text "_unittest" ∷ text "_regtest" ∷ text "_test" ∷ []) path in
    if stripped.0 then stripped.1 else (strip_left path (text "test_headercompile_")).1

-- The part of `GetCanonicalName` behind the stripping of the extension.
unfoldable pub canonical_stem : Text → Text
unfolding strip_test_name strip_right replace_first
canonical_stem path =
    let plain = (strip_right (strip_test_name path) (text "-inl")).1 in
    let public = replace_first plain (text "/internal/") (text "/public/") in
    replace_first public (text "/include/") (text "/src/")

module _ (sys : PathApi) where
  unfoldable pub is_header_filename : Text → Option Bool
  unfolding is_quoted_include is_special_filename_or_stdin
  is_header_filename path = do
    check (not (is_quoted_include path))
    let ext = sys.extension path
    some (
        if is_special_filename_or_stdin path
        then false
        else if is_empty ext
        then true
        else not (any_of (λ src_ext. text_eq ext src_ext) source_extensions))

  unfoldable pub is_quoted_header_filename : Text → Option Bool
  unfolding is_header_filename is_quoted_include
  is_quoted_header_filename quoted_include = do
    check (is_quoted_include quoted_include)
    is_header_filename (take (length quoted_include - 2) (drop 1 quoted_include))

  unfoldable pub normalize_file_path : Text → Text
  normalize_file_path path = sys.convert_to_slash (sys.remove_dots path)

  unfoldable pub normalize_dir_path : Text → Text
  unfolding normalize_file_path
  normalize_dir_path path =
      let result = normalize_file_path path in
      if not (is_empty result) && not (back_is b'/' result) then result ++ b'/' ∷ [] else result

  unfoldable pub get_canonical_name : Text → Option Text
  unfolding is_quoted_include is_special_filename_or_stdin normalize_file_path strip_extension
      canonical_stem
  get_canonical_name file_path = do
    check (not (is_quoted_include file_path))
    some (
        if is_special_filename_or_stdin file_path
        then file_path
        else canonical_stem (strip_extension (normalize_file_path file_path)))

  -- `MakeAbsolutePath(path)`: the error code is checked.
  abbrev pub make_absolute_path : Text → Option Text
  make_absolute_path path = sys.make_absolute path

  -- `MakeAbsolutePath(base_path, relative_path)`.
  abbrev pub make_absolute_path_from : Text → Text → Text
  make_absolute_path_from base_path relative_path = sys.append base_path relative_path

  abbrev pub get_parent_path : Text → Text
  get_parent_path path = sys.parent_path path

  unfoldable pub path_join : Text → Text → Option Text
  path_join dirpath relative_path = do
    check (not (sys.is_absolute relative_path))
    some (sys.append dirpath relative_path)

  unfoldable pub strip_path_prefix : Text → Text → Option (Bool × Text)
  unfolding strip_left
  strip_path_prefix path prefix_path = do
    check (
        if sys.is_absolute path
        then sys.is_absolute prefix_path
        else not (sys.is_absolute prefix_path))
    some (strip_left path prefix_path)

  -- The loop of case 1: the quoted include by the first entry that is a prefix of `path`.
  unfoldable pub quote_by_search_path : List HeaderSearchPath → Text → Option (Option Text)
  unfolding strip_path_prefix add_quotes
  quote_by_search_path [] path = some none
  quote_by_search_path (entry ∷ entries) path =
      let later = quote_by_search_path entries path in
      strip_path_prefix path entry.path >>= λ stripped.
      if stripped.0 then some (some (add_quotes stripped.1 (is_system entry.path_type))) else later

  -- Case 2: the directory of the includer, where there is one.
  unfoldable pub quote_by_includer : Text → Text → Option Text
  unfolding strip_path_prefix add_quotes normalize_dir_path
  quote_by_includer path includer_path =
      if not (is_empty includer_path)
      then (strip_path_prefix path (normalize_dir_path includer_path) >>= λ stripped.
          some (add_quotes stripped.1 false))
      else some (add_quotes path false)

  -- Both cases, at the path in the format of the search paths.
  unfoldable pub quote_path : List HeaderSearchPath → Text → Text → Option Text
  unfolding quote_by_search_path quote_by_includer
  quote_path search_paths path includer_path = quote_by_search_path search_paths path >>= λ found.
      elim found [ some quoted ↦ some quoted | none ↦ quote_by_includer path includer_path ]

  unfoldable pub convert_to_quoted_include : List HeaderSearchPath → Text → Text → Option Text
  unfolding quote_path is_quoted_include is_special_filename_or_stdin normalize_file_path
  convert_to_quoted_include search_paths filepath includer_path = do
    check (not (is_quoted_include filepath))
    check (is_empty includer_path || sys.is_absolute includer_path)
    (if is_special_filename_or_stdin filepath
        then some filepath
        else (make_absolute_path filepath >>= λ absolute.
            quote_path search_paths (normalize_file_path absolute) includer_path))
