-- ===== src/Regex/Tests.antt =====
-- A run of the theorem.
use include_what_you_use.Base.{true, ◌≡◌, refl, ◌↔◌}
use include_what_you_use.Text.{text, starts_with, ends_with}
use include_what_you_use.Regex.{anchored}
use include_what_you_use.Regex.Anchors.{anchored_lem}

anchored_lem_example :
    (starts_with (anchored (text "a.*")) (text "^") ≡ true)
    × (ends_with (anchored (text "a.*")) (text "$") ≡ true)
    × (anchored (anchored (text "a.*")) ≡ anchored (text "a.*"))
    × ((anchored (text "a.*") ≡ text "a.*") ↔ (
        (starts_with (text "a.*") (text "^") ≡ true) × (ends_with (text "a.*") (text "$") ≡ true)))
anchored_lem_example = anchored_lem (text "a.*")

anchored_plain : anchored (text "a.*$") ≡ text "^a.*$"
unfolding anchored
anchored_plain = refl
