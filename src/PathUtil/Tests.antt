-- ===== src/PathUtil/Tests.antt =====
-- A run of each theorem on the path functions.
use include_what_you_use.Base.{
  true, not, ◌&&◌, Option, some, List, [], ◌∷◌, ◌++◌, ◌≡◌, refl, ◌⊎◌, Elem, is_empty,
}
use include_what_you_use.Text.{Text, text}
use include_what_you_use.PathUtil.{
  HeaderSearchPath, system_path, user_path, is_quoted_include, is_special_filename_or_stdin,
  add_quotes, back_is, basename, quote_by_search_path,
}
use include_what_you_use.PathUtil.SearchPaths.{sort_by_descending_length}
use include_what_you_use.PathUtil.Quotes.{is_quoted_include-add_quotes}
use include_what_you_use.PathUtil.Names.{basename_lem}
use include_what_you_use.PathUtil.Search.{Chosen, quote_by_search_path-Chosen}
use include_what_you_use.Samples.{sys}

abbrev search_paths : List HeaderSearchPath
search_paths =
    record { path = text "/usr/"; path_type = user_path }
    ∷ record { path = text "/usr/include/"; path_type = system_path }
    ∷ []

quote_by_search_path-Chosen_example :
    (o : Option Text) × (quote_by_search_path sys
        (sort_by_descending_length search_paths)
        (text "/usr/include/stdio.h")
      ≡ some o)
    × Chosen search_paths (text "/usr/include/stdio.h") o
quote_by_search_path-Chosen_example =
    quote_by_search_path-Chosen sys search_paths (text "/usr/include/stdio.h") (refl, (refl, tt))
      refl

is_quoted_include-add_quotes_example : is_quoted_include (add_quotes (text "stdio.h") true) ≡ (
    not (is_empty (text "stdio.h"))
    && not (true && is_special_filename_or_stdin (add_quotes (text "stdio.h") true)))
is_quoted_include-add_quotes_example = is_quoted_include-add_quotes (text "stdio.h") true

basename_lem_example :
    (dir : Text) × (text "src/a.cc" ≡ dir ++ basename (text "src/a.cc"))
    × ((dir ≡ []) ⊎ (back_is b'/' dir ≡ true))
    × ¬ Elem b'/' (basename (text "src/a.cc"))
basename_lem_example = basename_lem (text "src/a.cc")
