-- ===== src/Output/Minimal/Served.antt =====
-- What `CalculateMinimalIncludes` leaves: every use that counts has a header, which is desired.
use include_what_you_use.Base.{true, false, ◌≡◌, ◌⊎◌, is_empty}
use include_what_you_use.Text.{Text}
use include_what_you_use.Text.Order.{text_key}
use include_what_you_use.Container.{Set, contains}
use include_what_you_use.Output.Use.{OneUse, is_full_use, has_suggested_header}

module _ (self : Text) where
  -- A use that counts has a header, desired or the file itself, or it is a forward declaration that no
  -- header serves.
  abbrev pub IsServedUse : Set Text → OneUse → Type 0
  IsServedUse d u =
      (u.ignore_use ≡ true)
      ⊎ ((has_suggested_header u ≡ true)
          × ((contains d u.suggested_header ≡ true) ⊎ (u.suggested_header ≡ self)))
      ⊎ ((is_full_use u ≡ false) × (is_empty u.public_headers ≡ true))
