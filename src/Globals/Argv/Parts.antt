-- ===== src/Globals/Argv/Parts.antt =====
-- The three parts of the command line.
use include_what_you_use.Base.{
  false, ◌||◌, List, [], ◌∷◌, ◌≡◌, refl, subst, sym, ◌⊎◌, inl, inr, arith, Bool-cases, ◌≢◌,
}
use include_what_you_use.Text.{Text, text, text_eq}
use include_what_you_use.Text.Order.{text_eq_iff}
use include_what_you_use.Globals.Argv.{Argv, add_word, split_argv}

abbrev pub IsIntercepted : Text → Type 0
IsIntercepted word = (word ≡ text "--help") ⊎ (word ≡ text "--version")

-- `next` stands directly behind an `-Xiwyu` that is itself no such word.
pub data Splits : List Text → Argv → Type 0 where
  done : Splits [] (record { iwyu_argv = []; intercepted_argv = []; clang_argv = [] })
  to_iwyu :
      (next : Text) {words : List Text} {argv : Argv}
      → Splits words argv
      → Splits (text "-Xiwyu" ∷ next ∷ words) (record argv { iwyu_argv = next ∷ argv.iwyu_argv })
  to_intercepted :
      (word : Text) {words : List Text} {argv : Argv}
      → IsIntercepted word
      → Splits words argv
      → Splits (word ∷ words) (record argv { intercepted_argv = word ∷ argv.intercepted_argv })
  to_clang :
      (word : Text) {words : List Text} {argv : Argv}
      → ¬ IsIntercepted word
      → (word ≢ text "-Xiwyu") ⊎ (words ≡ [])
      → Splits words argv
      → Splits (word ∷ words) (record argv { clang_argv = word ∷ argv.clang_argv })

add_word-Splits :
    (word : Text) (words : List Text) (argv : Argv)
    → (word ≢ text "-Xiwyu") ⊎ (words ≡ [])
    → Splits words argv
    → Splits (word ∷ words) (add_word word argv)
unfolding add_word
add_word-Splits word words argv plain s =
    elim (Bool-cases (text_eq word (text "--help") || text_eq word (text "--version"))) [
      | inl taken ↦ rw taken (
          to_intercepted word
            (ground (arith, text_eq_iff word (text "--help"), text_eq_iff word (text "--version")))
            s)
      | inr free ↦ rw free (to_clang word (not_taken free) plain s)
    ]
  where
    not_taken :
        (text_eq word (text "--help") || text_eq word (text "--version")) ≡ false
        → ¬ IsIntercepted word
    not_taken free (inl e) = ground (arith, text_eq_iff word (text "--help"))
    not_taken free (inr e) = ground (arith, text_eq_iff word (text "--version"))

-- The loop of OptionsParser splits every command line: a word behind `-Xiwyu` goes to the parser of this
-- program, `--help` and `--version` elsewhere are intercepted, and every other word goes to Clang, an
-- `-Xiwyu` only if it is the last word. The order of the words is kept in each part.
pub split_argv-Splits : (words : List Text) → Splits words (split_argv words)
unfolding split_argv
split_argv-Splits [] = done
split_argv-Splits (word ∷ []) = add_word-Splits word [] _ (inr refl) done
split_argv-Splits (word ∷ next ∷ words) =
    let behind = split_argv-Splits words in
    let rest = split_argv-Splits (next ∷ words) in
    elim (Bool-cases (text_eq word (text "-Xiwyu"))) [
      | inl here ↦ rw here (
          subst
            (λ w.
              Splits (w ∷ next ∷ words)
                (record (split_argv words) { iwyu_argv = next ∷ (split_argv words).iwyu_argv }))
            (sym ((text_eq_iff word (text "-Xiwyu")).0 here)) (to_iwyu next behind))
      | inr other ↦ rw other (
          add_word-Splits word (next ∷ words) _
            (inl (λ e. ground (arith, text_eq_iff word (text "-Xiwyu")))) rest)
    ]
