-- ===== src/Picker/Direct.antt =====
-- AddDirectInclude of iwyu_include_picker.cc.
use include_what_you_use.Base.{
  ◌-◌, not, ◌&&◌, ◌||◌, Option, none, some, List, [], ◌∷◌, ◌++◌, ◌==◌, if◌then◌else◌, take, drop,
}
use include_what_you_use.Base.Checked.{◌>>=◌, ◌>>◌, check}
use include_what_you_use.Text.{Text, text, text_eq, starts_with, find, strip_past}
use include_what_you_use.Text.Order.{text_key}
use include_what_you_use.Container.{map_set, get_or_default, set_insert}
use include_what_you_use.Picker.{
  pair_less, IncludePicker, PickerApi, mapped_include, mark_include_as_private, add_mapping,
  add_friend_regex,
}

unfoldable pub set_include_as_written :
    List ((Text × Text) × Text) → Text → Text → Text → List ((Text × Text) × Text)
unfolding pair_less
set_include_as_written [] a b written = ((a, b), written) ∷ []
set_include_as_written ((k, w) ∷ m) a b written =
    let later = set_include_as_written m a b written in
    if text_eq k.0 a && text_eq k.1 b
    then ((a, b), written) ∷ m
    else if pair_less (a, b) k
    then ((a, b), written) ∷ (k, w) ∷ m
    else (k, w) ∷ later

module _ (api : PickerApi) where
  -- The header in a directory `internal/` is private, and its neighbours are its friends.
  unfoldable pub add_internal : IncludePicker → Text → Text → Text → Text → Option IncludePicker
  unfolding mark_include_as_private add_friend_regex add_mapping mapped_include find
  add_internal p includer_filepath includee_filepath quoted_includer quoted_includee =
      elim (find quoted_includee (text "internal/")) [
        | none ↦ some p
        | some internal_pos ↦
            if internal_pos == 0 || starts_with (drop (internal_pos - 1) quoted_includee) (text "/")
            then (do
              p₁ ← mark_include_as_private p quoted_includee
              mapped ← mapped_include quoted_includer includer_filepath
              add_mapping
                  (add_friend_regex p₁ includee_filepath
                    (take internal_pos quoted_includee ++ text ".*"))
                  quoted_includee mapped)
            else some p
      ]

  -- `<asm-FOO/bar.h>` is private and stands for `<asm/bar.h>`.
  unfoldable pub add_asm : IncludePicker → Text → Option IncludePicker
  unfolding mark_include_as_private add_mapping mapped_include strip_past
  add_asm p quoted_includee =
      if starts_with quoted_includee (text "<asm-")
      then (do
        p₁ ← mark_include_as_private p quoted_includee
        mapped ← mapped_include (text "<asm/" ++ (strip_past quoted_includee (text "/")).1) []
        add_mapping p₁ quoted_includee mapped)
      else some p

  unfoldable pub add_direct_include : IncludePicker → Text → Text → Text → Option IncludePicker
  unfolding set_include_as_written mark_include_as_private add_internal add_asm map_set
      get_or_default set_insert mapped_include
  add_direct_include p includer_filepath includee_filepath quoted_include_as_written = do
    check (not p.has_called_finalize_added_include_lines)
    quoted_includer ← api.quote includer_filepath
    quoted_includee ← api.quote includee_filepath
    _ ← mapped_include quoted_includer includer_filepath
    let includers = get_or_default p.quoted_includes_to_quoted_includers quoted_includee []
    let noted = record p {
      quoted_includes_to_quoted_includers =
          map_set p.quoted_includes_to_quoted_includers quoted_includee
            (set_insert includers quoted_includer);
      include_as_written =
          set_include_as_written p.include_as_written includer_filepath includee_filepath
            quoted_include_as_written;
    }
    p₁ ←
        (if text_eq includer_filepath (text "<built-in>")
          then mark_include_as_private noted (text "\"<built-in>\"")
          else some noted)
    p₂ ← add_internal p₁ includer_filepath includee_filepath quoted_includer quoted_includee
    add_asm p₂ quoted_includee
