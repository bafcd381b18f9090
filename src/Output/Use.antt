-- ===== src/Output/Use.antt =====
-- `OneUse` of iwyu_output.h and iwyu_output.cc. A `NamedDecl*`, a `FileEntryRef` and a `SourceLocation`
-- are numbers, which stand for their identity; what Clang knows of them is a parameter.
use include_what_you_use.Base.{
  ℕ, Bool, true, false, not, ◌||◌, Option, some, List, if◌then◌else◌, is_empty,
}
use include_what_you_use.Base.Checked.{◌>>=◌, ◌>>◌, check}
use include_what_you_use.Text.{Text}
use include_what_you_use.Text.Order.{text_key}
use include_what_you_use.Container.{contains}

abbrev pub FileEntry : Type 0
FileEntry = ℕ

abbrev pub Decl : Type 0
Decl = ℕ

abbrev pub SourceLocation : Type 0
SourceLocation = ℕ

pub data UseKind : Type 0 where
  full fwd_decl : UseKind

pub record OneUse : Type 0 where
  pub symbol_name : Text
  pub short_symbol_name : Text
  pub decl : Option Decl
  pub decl_loc : SourceLocation
  pub decl_file : Option FileEntry
  pub decl_filepath : Text
  pub use_loc : SourceLocation
  pub use_kind : UseKind
  pub use_flags : ℕ
  pub comment : Text
  pub public_headers : List Text
  pub canonical_headers : List Text
  pub suggested_header : Text
  pub ignore_use : Bool
  pub is_iwyu_violation : Bool

abbrev pub is_full : UseKind → Bool
is_full full = true
is_full fwd_decl = false

abbrev pub is_full_use : OneUse → Bool
is_full_use u = is_full u.use_kind

abbrev pub has_suggested_header : OneUse → Bool
has_suggested_header u = not (is_empty u.suggested_header)

-- The accessor, which checks that there is one.
abbrev pub suggested_header_of : OneUse → Option Text
suggested_header_of u = do
  check (has_suggested_header u)
  check (not u.ignore_use)
  some u.suggested_header

abbrev pub set_suggested_header : OneUse → Text → OneUse
set_suggested_header u header = record u { suggested_header = header }

abbrev pub set_ignore_use : OneUse → OneUse
set_ignore_use u = record u { ignore_use = true }

abbrev pub set_is_iwyu_violation : OneUse → OneUse
set_is_iwyu_violation u = record u { is_iwyu_violation = true }

abbrev pub set_full_use : OneUse → OneUse
set_full_use u = record u { use_kind = full }

abbrev pub set_forward_declare_use : OneUse → OneUse
set_forward_declare_use u = record u { use_kind = fwd_decl }

-- What the uses need of the include picker and of Clang: `SetPublicHeaders`, which fills in the public
-- and the canonical headers, `ConvertToQuotedInclude` on an absolute path, and `GetFilePath`.
pub record HeaderSource : Type 0 where
  pub set_public_headers : OneUse → Option OneUse
  pub quoted : Text → Option Text
  pub file_path : SourceLocation → Text

-- `PublicHeadersContain`, on a use whose headers are filled in.
abbrev pub public_headers_contain : OneUse → Text → Bool
public_headers_contain u elt = contains u.public_headers elt

module _ (src : HeaderSource) where
  -- `public_headers()`, which fills them in on the first call.
  unfoldable pub fill_headers : OneUse → Option OneUse
  fill_headers u =
      if is_empty u.public_headers
      then (do
        filled ← src.set_public_headers u
        check (not (is_full_use filled) || not (is_empty filled.public_headers))
        some filled)
      else some u

  -- `NeedsSuggestedHeader`, with the use as it leaves it.
  unfoldable pub needs_suggested_header : OneUse → Option (Bool × OneUse)
  unfolding fill_headers
  needs_suggested_header u =
      if u.ignore_use || has_suggested_header u
      then some (false, u)
      else if is_full_use u
      then some (true, u)
      else (do filled ← fill_headers u; some (not (is_empty filled.public_headers), filled))
