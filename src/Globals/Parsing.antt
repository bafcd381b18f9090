-- ===== src/Globals/Parsing.antt =====
-- Case rules for the outcomes of an option.
use include_what_you_use.Base.{if-holds, Option, none, some, ◌≡◌, refl}
use include_what_you_use.Text.{Text, text, text_eq}
use include_what_you_use.Text.Order.{text_key}
use include_what_you_use.Globals.{
  CommandlineFlags, Parsed, parsed, fatal, parse_comment_style, parse_prefix_header_includes,
}

pub Option-holds :
    {A : Type 0} (P : Parsed → Type 0) (found : A → Parsed) (missing : Parsed) (o : Option A)
    → ((a : A) → P (found a))
    → P missing
    → P (elim o [ some a ↦ found a | none ↦ missing ])
Option-holds P found missing none h m = m
Option-holds P found missing (some a) h m = h a

pub parsed-eq : {f g : CommandlineFlags} → parsed f ≡ parsed g → f ≡ g
parsed-eq e = cc

-- A predicate on the outcomes of a keyword that keeps the three lists, or is refused.
module _ (P : Parsed → Type 0) (f : CommandlineFlags)
    (set : (g : CommandlineFlags)
      → g.keep ≡ f.keep
      → g.check_also ≡ f.check_also
      → g.mapping_files ≡ f.mapping_files
      → P (parsed g))
    (refused : (message : Text) → P (fatal message)) where
  pub comment_style-holds : (optarg : Text) → P (parse_comment_style f optarg)
  comment_style-holds optarg = if-holds P (text_eq optarg (text "none")) (set _ refl refl refl) (
      if-holds P (text_eq optarg (text "short")) (set _ refl refl refl)
        (if-holds P (text_eq optarg (text "long")) (set _ refl refl refl) (refused _)))

  pub prefix_header_includes-holds : (optarg : Text) → P (parse_prefix_header_includes f optarg)
  prefix_header_includes-holds optarg =
      if-holds P (text_eq optarg (text "add")) (set _ refl refl refl) (
        if-holds P (text_eq optarg (text "keep")) (set _ refl refl refl)
          (if-holds P (text_eq optarg (text "remove")) (set _ refl refl refl) (refused _)))
