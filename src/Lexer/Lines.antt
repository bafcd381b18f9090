-- ===== src/Lexer/Lines.antt =====
-- The name of an include is read back from its line.
use include_what_you_use.Base.{
  ℕ, suc, ◌+◌, Bool, true, false, Option, some, [], ◌∷◌, ◌++◌, ◌==◌, ◌≡◌, refl, ap, arith, All,
  if◌then◌else◌, length, take, append_assoc,
}
use include_what_you_use.Text.{Text, find, starts_with}
use include_what_you_use.Output.Use.{SourceLocation}
use include_what_you_use.PathUtil.{add_quotes}
use include_what_you_use.Lexer.{
  until_end_of_line, include_name_in, get_source_text_until_end_of_line,
  get_include_name_as_written,
}

-- A byte that ends neither the line nor a name that `close` ends.
abbrev pub IsInName : ℕ → ℕ → Type 0
IsInName close c = (((c == 13) ≡ false) × ((c == 10) ≡ false)) × ((c == close) ≡ false)

until_name :
    (close : ℕ) (name rest : Text)
    → All (IsInName close) name
    → until_end_of_line (name ++ rest) ≡ name ++ until_end_of_line rest
unfolding until_end_of_line
until_name close [] rest h = refl
until_name close (c ∷ name) rest (((cr, lf), _), h) =
    rw cr (rw lf (ap (◌∷◌ c) (until_name close name rest h)))

find_close :
    (close : ℕ) (name rest : Text)
    → All (IsInName close) name
    → find (name ++ close ∷ rest) (close ∷ []) ≡ some (length name)
unfolding find starts_with
find_close close [] rest h = ground arith
find_close close (c ∷ name) rest ((_, other), h) =
    rw other (rw (find_close close name rest h) (ground arith))

suc_add : (n : ℕ) → suc n + 1 ≡ suc (n + 1)
suc_add n = omega arith

take_name :
    (close : ℕ) (name rest : Text)
    → take (length name + 1) (name ++ close ∷ rest) ≡ name ++ close ∷ []
take_name close [] rest = refl
take_name close (c ∷ name) rest =
    rw (suc_add (length name)) (ap (◌∷◌ c) (take_name close name rest))

abbrev pub closing : Bool → ℕ
closing angled = if angled then b'>' else b'"'

quoted_line :
    (name rest : Text) (angled : Bool)
    → All (IsInName (closing angled)) name
    → include_name_in (until_end_of_line (add_quotes name angled ++ rest))
      ≡ some (add_quotes name angled)
unfolding include_name_in add_quotes until_end_of_line
quoted_line name rest true h = rw (append_assoc name (b'>' ∷ []) rest) (
    rw (until_name b'>' name (b'>' ∷ rest) h) (
      rw (find_close b'>' name (until_end_of_line rest) h)
        (rw (take_name b'>' name (until_end_of_line rest)) refl)))
quoted_line name rest false h = rw (append_assoc name (b'"' ∷ []) rest) (
    rw (until_name b'"' name (b'"' ∷ rest) h) (
      rw (find_close b'"' name (until_end_of_line rest) h)
        (rw (take_name b'"' name (until_end_of_line rest)) refl)))

-- Where a quoted include stands at the location and its name holds neither a line break nor its
-- closing character, GetIncludeNameAsWritten returns it.
pub get_include_name_as_written-add_quotes :
    (char_data : SourceLocation → Option Text) (loc : SourceLocation) (name rest : Text)
    (angled : Bool)
    → char_data loc ≡ some (add_quotes name angled ++ rest)
    → All (IsInName (closing angled)) name
    → get_include_name_as_written char_data loc ≡ some (add_quotes name angled)
unfolding get_include_name_as_written get_source_text_until_end_of_line
get_include_name_as_written-add_quotes char_data loc name rest angled e h =
    rw e (quoted_line name rest angled h)
