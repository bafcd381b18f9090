-- ===== src/Preprocessor/Namespaces.antt =====
-- NormalizeNamespaces of iwyu_preprocessor.cc.
use include_what_you_use.Base.{
  ℕ, zero, suc, ◌+◌, ◌<◌, Option, none, some, ◌++◌, ◌≡◌, refl, sym, ap, ◌∙◌, subst, arith, length,
  take, drop, length-append, length-take, length-drop,
}
use include_what_you_use.Text.{Text, text, find, strip_left}
use include_what_you_use.Text.Find.{find-occurrence, find-length, drop_add}
use include_what_you_use.Preprocessor.{strip_anonymous, normalize_namespaces}

abbrev anonymous_qualifier : Text
anonymous_qualifier = text "(anonymous namespace)::"

-- The second text is the first without some of the qualifiers in it.
pub data Erases : Text → Text → Type 0 where
  all_kept : (symbol : Text) → Erases symbol symbol
  erased :
      (front back : Text) {symbol : Text}
      → Erases (front ++ back) symbol
      → Erases (front ++ (text "(anonymous namespace)::" ++ back)) symbol

abbrev IsNormal : Text → Option Text → Type 0
IsNormal symbol result =
    (r : Text) × (result ≡ some r)
    × (find r (text "(anonymous namespace)::") ≡ none)
    × Erases symbol r

strip_anonymous-IsNormal :
    (fuel : ℕ) (symbol : Text)
    → length symbol < fuel
    → IsNormal symbol (strip_anonymous fuel symbol)
unfolding strip_anonymous
strip_anonymous-IsNormal zero symbol h = absurd (omega arith)
strip_anonymous-IsNormal (suc fuel) symbol h =
    by_find (λ t. strip_anonymous-IsNormal fuel t) (find symbol anonymous_qualifier) refl
  where
    by_find :
        ((t : Text) → length t < fuel → IsNormal t (strip_anonymous fuel t))
        → (o : Option ℕ) → find symbol anonymous_qualifier ≡ o
        → IsNormal symbol (elim o [
          | none ↦ some symbol
          | some index ↦
              strip_anonymous fuel
                (take index symbol ++ drop (index + length anonymous_qualifier) symbol)
        ])
    by_find rec none e = (symbol, refl, e, all_kept symbol)
    by_find rec (some index) e =
        let back = drop (index + length anonymous_qualifier) symbol in
        let (r, e₁, none_left, erases) = rec (take index symbol ++ back) (
          omega (
            arith,
            h,
            length-append (take index symbol) back,
            length-take index symbol,
            length-drop (index + length anonymous_qualifier) symbol,
            find-length symbol anonymous_qualifier index e,
          )) in
        (
          r,
          e₁,
          none_left,
          subst (λ t. Erases t r)
              (sym (
                find-occurrence symbol anonymous_qualifier index e
                ∙ ap (λ t. take index symbol ++ (anonymous_qualifier ++ t))
                    (sym (drop_add index (length anonymous_qualifier) symbol))))
              (erased (take index symbol) back erases),
        )

-- NormalizeNamespaces returns, no anonymous namespace is left in its result, and it only erases these
-- from the symbol without its first two colons.
pub normalize_namespaces-IsNormal :
    (symbol : Text)
    → (r : Text) × (normalize_namespaces symbol ≡ some r)
      × (find r (text "(anonymous namespace)::") ≡ none)
      × Erases (strip_left symbol (text "::")).1 r
unfolding normalize_namespaces
normalize_namespaces-IsNormal symbol =
    let stripped = (strip_left symbol (text "::")).1 in
    strip_anonymous-IsNormal (suc (length stripped)) stripped (omega arith)
