-- ===== src/Samples.antt =====
-- Parameters for the runs: paths that are normal already, a picker that quotes a path as it is, and an empty
-- include picker.
use include_what_you_use.Base.{true, false, some, [], ◌++◌}
use include_what_you_use.Text.{text}
use include_what_you_use.PathUtil.{PathApi}
use include_what_you_use.Picker.{IncludePicker, PickerApi}

abbrev pub sys : PathApi
sys = record {
  extension = λ path. text ".h";
  remove_dots = λ path. path;
  convert_to_slash = λ path. path;
  is_absolute = λ path. true;
  make_absolute = λ path. some path;
  append = λ dir path. dir ++ path;
  parent_path = λ path. [];
}

abbrev pub picker_api : PickerApi
picker_api = record {
  quote = λ path. some (text "\"" ++ path ++ text "\"");
  quote_from = λ path including. some (text "\"" ++ path ++ text "\"");
  is_absolute = λ path. false;
  regex_match = λ str regex. false;
  regex_replace = λ str regex replacement. str;
}

abbrev pub empty_picker : IncludePicker
empty_picker = record {
  symbol_include_map = [];
  fwd_decl_symbol_map = [];
  filepath_include_map = [];
  include_visibility_map = [];
  path_visibility_map = [];
  quoted_includes_to_quoted_includers = [];
  include_as_written = [];
  friend_to_headers_map = [];
  has_called_finalize_added_include_lines = false;
}
