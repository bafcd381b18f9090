-- ===== src/Output/Verdict/Forward.antt =====
-- When `CalculateIwyuForForwardDeclareUse` finds a violation.
use include_what_you_use.Base.{false, ◌≡◌, All}
use include_what_you_use.Text.{Text}
use include_what_you_use.Text.Order.{text_key}
use include_what_you_use.Container.{Set, contains}
use include_what_you_use.Output.Use.{OneUse, Decl}
use include_what_you_use.Output.Facts.{ClangFacts, PickerFacts}

module _ (c : ClangFacts) (p : PickerFacts) (actual desired : Set Text) where
  -- A definition that the file does not have: none of its headers is included, and it is not before the use.
  abbrev pub IsMissing : OneUse → Decl → Type 0
  IsMissing u dfn =
      All (λ h. contains actual h ≡ false)
        (p.mapped_public_headers dfn (c.path_of_loc u.use_loc) (c.path_of_decl dfn))
      × (c.decl_is_before_in_same_file dfn u.use_loc ≡ false)
