-- ===== src/Output/Headers/Tests.antt =====
-- A run on a full use of a function of a private header, which `"pub.h"` stands for.
use include_what_you_use.Base.{true, false, some, List, [], ◌∷◌, ◌++◌, ◌≡◌, refl, if◌then◌else◌}
use include_what_you_use.Text.{Text, text, text_eq, text_less, starts_with}
use include_what_you_use.Output.Use.{OneUse, full, is_full_use}
use include_what_you_use.Picker.{IncludePicker, PickerApi, private}
use include_what_you_use.Output.Headers.{DeclNames, set_public_headers}
use include_what_you_use.Output.Headers.Origin.{HaveOrigin, IsCanonical, set_public_headers_lem}

abbrev header_api : PickerApi
header_api = record {
  quote = λ path. some (text "\"" ++ path ++ text "\"");
  quote_from = λ path including. some (text "\"" ++ path ++ text "\"");
  is_absolute = λ path. false;
  regex_match = λ str regex. false;
  regex_replace = λ str regex replacement. str;
}

abbrev header_picker : IncludePicker
header_picker = record {
  symbol_include_map = [];
  fwd_decl_symbol_map = [];
  filepath_include_map =
      (text "\"priv.h\"", record { quoted_include = text "\"pub.h\""; path = [] } ∷ []) ∷ [];
  include_visibility_map = (text "\"priv.h\"", private) ∷ [];
  path_visibility_map = [];
  quoted_includes_to_quoted_includers = [];
  include_as_written = [];
  friend_to_headers_map = [];
  has_called_finalize_added_include_lines = true;
}

abbrev decl_names : DeclNames
decl_names = record {
  cplusplus = λ decl. true;
  written_name = λ decl with_fn_args. if with_fn_args then text "f(int)" else text "f";
  file_path = λ loc. text "x.cc";
}

abbrev f_use : OneUse
f_use = record {
  symbol_name = text "f";
  short_symbol_name = text "f";
  decl = some 7;
  decl_loc = 1;
  decl_file = some 2;
  decl_filepath = text "priv.h";
  use_loc = 3;
  use_kind = full;
  use_flags = 0;
  comment = [];
  public_headers = [];
  canonical_headers = [];
  suggested_header = [];
  ignore_use = false;
  is_iwyu_violation = false;
}

abbrev f_headers : List Text
f_headers = text "\"pub.h\"" ∷ []

abbrev filled_f_use : OneUse
filled_f_use = record f_use { public_headers = f_headers; canonical_headers = f_headers }

f_use-filled : set_public_headers header_api header_picker decl_names f_use ≡ some filled_f_use
unfolding set_public_headers text_eq text_less starts_with
f_use-filled = refl

set_public_headers_lem_example :
    (headers canonical : List Text) × (filled_f_use
      ≡ record f_use { public_headers = headers; canonical_headers = canonical })
    × (is_full_use f_use ≡ true → HaveOrigin header_api header_picker decl_names f_use headers)
    × IsCanonical header_api header_picker decl_names f_use headers canonical
set_public_headers_lem_example =
    set_public_headers_lem header_api header_picker decl_names f_use filled_f_use f_use-filled
