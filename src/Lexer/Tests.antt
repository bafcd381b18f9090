-- ===== src/Lexer/Tests.antt =====
-- Runs.
use include_what_you_use.Base.{true, some, Option, ◌≡◌, refl}
use include_what_you_use.Text.{Text, text}
use include_what_you_use.Output.Use.{SourceLocation}
use include_what_you_use.PathUtil.{add_quotes}
use include_what_you_use.Lexer.{get_include_name_as_written}
use include_what_you_use.Lexer.Lines.{get_include_name_as_written-add_quotes}

abbrev line_data : SourceLocation → Option Text
line_data loc = some (text "<a.h>  // b>")

get_include_name_as_written-add_quotes_example :
    get_include_name_as_written line_data 5 ≡ some (add_quotes (text "a.h") true)
get_include_name_as_written-add_quotes_example =
    get_include_name_as_written-add_quotes line_data 5 (text "a.h") (text "  // b>") true
      (unfold add_quotes in refl)
      (((refl, refl), refl), (((refl, refl), refl), (((refl, refl), refl), tt)))
