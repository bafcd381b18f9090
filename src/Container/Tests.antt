-- ===== src/Container/Tests.antt =====
-- A run of each theorem on the containers.
use include_what_you_use.Base.{List, [], ◌∷◌, ◌≡◌, refl, ◌↔◌, Elem}
use include_what_you_use.Text.{Text, text, text_eq, text_less}
use include_what_you_use.Text.Order.{text_key}
use include_what_you_use.Container.{get_unique_entries}
use include_what_you_use.Container.Unique.{Distinct, get_unique_entries_lem}

abbrev repeated : List Text
repeated = text "b" ∷ text "a" ∷ text "b" ∷ []

get_unique_entries_lem_example :
    Distinct (get_unique_entries repeated)
    × ((y : Text) → Elem y (get_unique_entries repeated) ↔ Elem y repeated)
get_unique_entries_lem_example = get_unique_entries_lem repeated

first_ones_stay : get_unique_entries repeated ≡ text "b" ∷ text "a" ∷ []
unfolding get_unique_entries text_eq text_less
first_ones_stay = refl
