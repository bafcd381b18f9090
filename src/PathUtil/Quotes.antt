-- ===== src/PathUtil/Quotes.antt =====
-- Quoted includes.
use include_what_you_use.Base.{
  ℕ, Bool, true, false, not, ◌&&◌, [], ◌∷◌, ◌++◌, ◌≡◌, refl, arith, ◌==◌, is_empty, length-append,
}
use include_what_you_use.Text.{Text}
use include_what_you_use.PathUtil.{
  back_is, is_quoted_include, add_quotes, is_special_filename_or_stdin,
}

back_is-snoc : (c d : ℕ) (s : Text) → back_is c (s ++ d ∷ []) ≡ (d == c)
back_is-snoc c d [] = refl
back_is-snoc c d (x ∷ []) = refl
back_is-snoc c d (x ∷ y ∷ s) = back_is-snoc c d (y ∷ s)

-- `AddQuotes` makes a quoted include of a name exactly when the name is not empty, but for a name in
-- angle brackets that spells one of the special file names.
pub is_quoted_include-add_quotes :
    (name : Text) (angled : Bool)
    → is_quoted_include (add_quotes name angled)
      ≡ (not (is_empty name) && not (angled && is_special_filename_or_stdin (add_quotes name true)))
unfolding is_quoted_include add_quotes
is_quoted_include-add_quotes [] true = refl
is_quoted_include-add_quotes [] false = refl
is_quoted_include-add_quotes (c ∷ name) true =
    ground (arith, length-append name (b'>' ∷ []), back_is-snoc b'>' b'>' (c ∷ name))
is_quoted_include-add_quotes (c ∷ name) false = ground (
  arith,
  length-append name (b'"' ∷ []),
  back_is-snoc b'>' b'"' (c ∷ name),
  back_is-snoc b'"' b'"' (c ∷ name),
)
