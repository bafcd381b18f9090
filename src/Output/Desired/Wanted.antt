-- ===== src/Output/Desired/Wanted.antt =====
-- The lines that `CalculateDesiredIncludesAndForwardDeclares` leaves: each header that a use needs is
-- wanted, and wanted once.
use include_what_you_use.Base.{
  ℕ, ◌≤◌, Bool, true, false, Option, some, List, [], ◌∷◌, ◌≡◌, refl, inl, inr, arith, All,
  Bool-cases, any_of, count_if, map, if◌then◌else◌,
}
use include_what_you_use.Text.{Text}
use include_what_you_use.Text.Order.{text_key}
use include_what_you_use.Container.{Set, contains}
use include_what_you_use.Output.Use.{OneUse, is_full_use}
use include_what_you_use.Output.Line.{Line, DeclFacts}
use include_what_you_use.Output.Desired.{
  clear_associated, clear_surplus, keep_line, keep_macro,
  calculate_desired_includes_and_forward_declares,
}
use include_what_you_use.Output.Desired.Marks.{
  HasLine, IsMarked, HasLine-map, IsMarked-map, IsReady, Counts, add_lines_lem,
}
use include_what_you_use.Output.Desired.Passes.{Passes, mark_full_uses_lem, mark_fwd_decl_uses_lem}
use include_what_you_use.Output.Desired.Surplus.{
  wants, clear_associated-Keeps, keep_line-Keeps, keep_macro-Keeps, any_wanted-map,
  clear_surplus-wanted, wants_plainly, clear_surplus-once, count_if-map, keep_line-plain,
  keep_macro-plain,
}

module _ (facts : DeclFacts) (with_namespace : Bool) (associated : Set Text)
    (kept : List (Option ℕ)) where
  -- The lines before the last two passes, and what is known of them.
  record Marking (uses : List OneUse) (lines : List Line) : Type 0 where
    marked : List Line
    result :
        calculate_desired_includes_and_forward_declares facts with_namespace uses associated kept
          lines
        ≡ some (
            map (keep_macro facts) (
              map
                (keep_line kept)
                (clear_surplus [] [] (map (clear_associated associated) marked))))
    has_line : All (λ u. Counts u → HasLine u.suggested_header marked) uses
    is_marked : All (λ u. Counts u → IsMarked u.suggested_header marked) uses

  marking : (uses : List OneUse) (lines : List Line) → All IsReady uses → Marking uses lines
  unfolding calculate_desired_includes_and_forward_declares
  marking uses lines ready =
      let (l₁, e₁, k₁, has₁) = add_lines_lem facts uses lines ready in
      let (l₂, e₂, p₂, full₂) = mark_full_uses_lem with_namespace uses l₁ ready in
      let has₂ = lift l₁ l₂ uses p₂ has₁ in
      let (l₃, e₃, p₃, fwd₃) = mark_fwd_decl_uses_lem with_namespace uses l₂ ready has₂ in
      record {
        marked = l₃;
        result = rw e₁ (rw e₂ (rw e₃ refl));
        has_line = lift l₂ l₃ uses p₃ has₂;
        is_marked = both l₂ l₃ uses p₃ full₂ fwd₃;
      }
    where
      lift :
          (a b : List Line) (us : List OneUse)
          → Passes a b
          → All (λ u. Counts u → HasLine u.suggested_header a) us
          → All (λ u. Counts u → HasLine u.suggested_header b) us
      lift a b [] p all = tt
      lift a b (u ∷ us) p all = (λ c. p.has_line u.suggested_header (all.0 c), lift a b us p all.1)

      both :
          (a b : List Line) (us : List OneUse)
          → Passes a b
          → All (λ u. Counts u → is_full_use u ≡ true → IsMarked u.suggested_header a) us
          → All (λ u. Counts u → is_full_use u ≡ false → IsMarked u.suggested_header b) us
          → All (λ u. Counts u → IsMarked u.suggested_header b) us
      both a b [] p f g = tt
      both a b (u ∷ us) p f g = (
        λ c. elim (Bool-cases (is_full_use u)) [
          | inl full_use ↦ p.is_marked u.suggested_header (f.0 c full_use)
          | inr fwd ↦ g.0 c fwd
        ],
        both a b us p f.1 g.1,
      )

  finish-wanted :
      (h : Text) (marked : List Line)
      → contains associated h ≡ false
      → HasLine h marked
      → IsMarked h marked
      → any_of (wants h) (
          map
            (keep_macro facts)
            (map (keep_line kept) (clear_surplus [] [] (map (clear_associated associated) marked))))
        ≡ true
  finish-wanted h marked away has is_marked =
      let k = clear_associated-Keeps associated h away in
      any_wanted-map h (keep_macro facts) _ (keep_macro-Keeps facts h) (
        any_wanted-map h (keep_line kept) _ (keep_line-Keeps kept h) (
          clear_surplus-wanted h [] [] _ (unfold contains in refl) (HasLine-map h _ marked k has)
            (IsMarked-map h _ marked k is_marked)))

  -- Let every use that is not ignored have a suggested header, or need no full type and know its
  -- declaration. Then `CalculateDesiredIncludesAndForwardDeclares` returns, and for every use that is not
  -- ignored and has a suggested header, that header has a desired include line, unless the includes of the
  -- associated headers bring it.
  pub desired_lines-serve :
      (uses : List OneUse) (lines : List Line)
      → All IsReady uses
      → (lines' : List Line) × (calculate_desired_includes_and_forward_declares facts with_namespace
            uses associated kept lines
          ≡ some lines')
        × All
            (λ u.
              Counts u
              → contains associated u.suggested_header ≡ false
              → any_of (wants u.suggested_header) lines' ≡ true)
            uses
  desired_lines-serve uses lines ready =
      let m = marking uses lines ready in (_, m.result, serve m.marked uses m.has_line m.is_marked)
    where
      serve :
          (marked : List Line) (us : List OneUse)
          → All (λ u. Counts u → HasLine u.suggested_header marked) us
          → All (λ u. Counts u → IsMarked u.suggested_header marked) us
          → All
              (λ u.
                Counts u
                → contains associated u.suggested_header ≡ false
                → any_of (wants u.suggested_header) (
                    map (keep_macro facts) (
                      map
                        (keep_line kept)
                        (clear_surplus [] [] (map (clear_associated associated) marked))))
                  ≡ true)
              us
      serve marked [] has is_marked = tt
      serve marked (u ∷ us) has is_marked = (
        λ c away. finish-wanted u.suggested_header marked away (has.0 c) (is_marked.0 c),
        serve marked us has.1 is_marked.1,
      )

  -- Under the same condition on the uses, at most one desired line asks for a header, not counting the
  -- lines of files that a pragma keeps and those of elaborated types.
  pub desired_lines-once :
      (uses : List OneUse) (lines : List Line)
      → All IsReady uses
      → (lines' : List Line) × (calculate_desired_includes_and_forward_declares facts with_namespace
            uses associated kept lines
          ≡ some lines')
        × ((h : Text) → count_if (wants_plainly kept h) lines' ≤ 1)
  desired_lines-once uses lines ready =
      let m = marking uses lines ready in
      (
        _,
        m.result,
        λ h.
            once h (clear_surplus-once kept h [] [] (map (clear_associated associated) m.marked))
              (count_if-map (wants_plainly kept h) (keep_line kept)
                (clear_surplus [] [] (map (clear_associated associated) m.marked))
                (keep_line-plain kept h))
              (count_if-map (wants_plainly kept h) (keep_macro facts)
                (map (keep_line kept)
                  (clear_surplus [] [] (map (clear_associated associated) m.marked)))
                (keep_macro-plain facts kept h)),
      )
    where
      once : (h : Text) {a b c : ℕ} → a ≤ (if contains [] h then 0 else 1) → b ≡ a → c ≡ b → c ≤ 1
      once h l e f = unfold contains in (omega (arith, l, e, f))
