-- ===== src/Output/Desired/Marks.antt =====
-- The loop of `CalculateDesiredIncludesAndForwardDeclares` that adds lines, and what marks a line.
use include_what_you_use.Base.{
  ℕ, true, false, Option, none, some, List, [], ◌∷◌, ◌++◌, ◌≡◌, refl, sym, ◌∙◌, ◌⊎◌, inl, inr,
  arith, All, Bool-cases, any_of, map,
}
use include_what_you_use.Text.{Text, starts_with}
use include_what_you_use.Text.Order.{text_eq_refl}
use include_what_you_use.Output.Use.{OneUse, is_full_use, has_suggested_header}
use include_what_you_use.Output.Line.{
  Line, DeclFacts, include_line, fwd_decl_line, clear_line_numbers, is_include_line,
  matches_include, matches_decl, has_symbol_use, add_symbol_use,
}
use include_what_you_use.Output.Desired.{
  add_line, add_lines, mark_full_use, mark_pointer_use, mark_declaration,
}

abbrev pub HasLine : Text → List Line → Type 0
HasLine h lines = any_of (matches_include h) lines ≡ true

-- The lines of a header are desired.
abbrev pub IsMarked : Text → List Line → Type 0
IsMarked h = All (λ l. matches_include h l ≡ true → l.is_desired ≡ true)

-- A change of a line that keeps its header, and does not clear it if it is one of `h`.
abbrev pub Keeps : Text → (Line → Line) → Type 0
Keeps h f =
    (l : Line)
    → (matches_include h (f l) ≡ matches_include h l)
      × (matches_include h l ≡ true → l.is_desired ≡ true → (f l).is_desired ≡ true)

pub HasLine-map :
    (h : Text) (f : Line → Line) (lines : List Line)
    → Keeps h f
    → HasLine h lines
    → HasLine h (map f lines)
HasLine-map h f [] k has = has
HasLine-map h f (l ∷ lines) k has = ground (arith, (k l).0, HasLine-map h f lines k, has)

pub IsMarked-map :
    (h : Text) (f : Line → Line) (lines : List Line)
    → Keeps h f
    → IsMarked h lines
    → IsMarked h (map f lines)
IsMarked-map h f [] k a = tt
IsMarked-map h f (l ∷ lines) k a =
    ((λ m. (k l).1 (sym (k l).0 ∙ m) (a.0 (sym (k l).0 ∙ m))), IsMarked-map h f lines k a.1)

pub mark_full_use-Keeps : (h k symbol : Text) → Keeps h (mark_full_use k symbol)
unfolding mark_full_use matches_include is_include_line add_symbol_use
mark_full_use-Keeps h k symbol l = (ground arith, λ m d. ground arith)

pub mark_pointer_use-Keeps : (h k symbol : Text) → Keeps h (mark_pointer_use k symbol)
unfolding mark_pointer_use matches_include is_include_line add_symbol_use
mark_pointer_use-Keeps h k symbol l = (ground arith, λ m d. ground arith)

pub mark_declaration-Keeps : (h : Text) (d : ℕ) → Keeps h (mark_declaration d)
unfolding mark_declaration matches_include is_include_line
mark_declaration-Keeps h d l = (ground arith, λ m e. ground arith)

pub mark_full_use-marks :
    (h symbol : Text) (lines : List Line) → IsMarked h (map (mark_full_use h symbol) lines)
mark_full_use-marks h symbol [] = tt
mark_full_use-marks h symbol (l ∷ lines) = (
  λ m. marked ((mark_full_use-Keeps h h symbol l).0 ∙ refl) m,
  mark_full_use-marks h symbol lines,
)
  where
    marked :
        matches_include h (mark_full_use h symbol l) ≡ matches_include h l
        → matches_include h (mark_full_use h symbol l) ≡ true
        → (mark_full_use h symbol l).is_desired ≡ true
    marked e m = unfold mark_full_use in rw (sym e ∙ m) refl

pub mark_pointer_use-marks :
    (h symbol : Text) (lines : List Line) → IsMarked h (map (mark_pointer_use h symbol) lines)
mark_pointer_use-marks h symbol [] = tt
mark_pointer_use-marks h symbol (l ∷ lines) =
    (λ m. marked (mark_pointer_use-Keeps h h symbol l).0 m, mark_pointer_use-marks h symbol lines)
  where
    marked :
        matches_include h (mark_pointer_use h symbol l) ≡ matches_include h l
        → matches_include h (mark_pointer_use h symbol l) ≡ true
        → (mark_pointer_use h symbol l).is_desired ≡ true
    marked e m =
        unfold mark_pointer_use in
        (let k = sym e ∙ m in
          elim (Bool-cases (has_symbol_use l symbol)) [
            | inl seen ↦ rw k (rw seen refl)
            | inr fresh ↦ rw k (rw fresh refl)
          ])

-- What the passes have to know of a use: a full use has a header, and a forward declaration a header or
-- a declaration.
abbrev pub IsReady : OneUse → Type 0
IsReady u =
    u.ignore_use ≡ false
    → (has_suggested_header u ≡ true) ⊎ ((is_full_use u ≡ false) × ((d : ℕ) × (u.decl ≡ some d)))

abbrev pub Counts : OneUse → Type 0
Counts u = (u.ignore_use ≡ false) × (has_suggested_header u ≡ true)

HasLine-append : (h : Text) (lines rest : List Line) → HasLine h lines → HasLine h (lines ++ rest)
HasLine-append h [] rest has = cc
HasLine-append h (l ∷ lines) rest has = ground (arith, HasLine-append h lines rest, has)

HasLine-last :
    (h : Text) (lines : List Line) (l : Line)
    → matches_include h l ≡ true
    → HasLine h (lines ++ l ∷ [])
HasLine-last h [] l m = ground arith
HasLine-last h (k ∷ lines) l m = ground (arith, HasLine-last h lines l m)

include_line-matches :
    (file : Option ℕ) (h : Text) → matches_include h (include_line file h none) ≡ true
unfolding matches_include is_include_line include_line starts_with
include_line-matches file h = text_eq_refl h

module _ (facts : DeclFacts) where
  add_line_lem :
      (u : OneUse) (lines : List Line)
      → IsReady u
      → (lines' : List Line) × (add_line facts u lines ≡ some lines')
        × ((h : Text) → HasLine h lines → HasLine h lines')
        × (Counts u → HasLine u.suggested_header lines')
  unfolding add_line
  add_line_lem u lines ready = elim (Bool-cases u.ignore_use) [
    | inl i ↦ (lines, rw i refl, λ h has. has, λ c. cc)
    | inr i ↦ elim (Bool-cases (has_suggested_header u)) [
      | inl s ↦ elim (Bool-cases (any_of (matches_include u.suggested_header) lines)) [
        | inl there ↦ (lines, ground (arith, i, s, there), λ h has. has, λ c. there)
        | inr missing ↦ (
          lines ++ include_line u.decl_file u.suggested_header none ∷ [],
          ground (arith, i, s, missing),
          λ h has. HasLine-append h lines _ has,
          λ c.
              HasLine-last u.suggested_header lines _
                (include_line-matches u.decl_file u.suggested_header),
        )
      ]
      | inr n ↦
          let (d, e) = has_decl (ready i) n in
          elim (Bool-cases (any_of (matches_decl facts d) lines)) [
            | inl there ↦ (lines, ground (arith, i, n, e, there), λ h has. has, λ c. cc)
            | inr missing ↦ (
              lines ++ clear_line_numbers (fwd_decl_line facts d) ∷ [],
              ground (arith, i, n, e, missing),
              λ h has. HasLine-append h lines _ has,
              λ c. cc,
            )
          ]
    ]
  ]
    where
      has_decl :
          (has_suggested_header u ≡ true)
            ⊎ ((is_full_use u ≡ false) × ((d : ℕ) × (u.decl ≡ some d)))
          → has_suggested_header u ≡ false
          → (d : ℕ) × (u.decl ≡ some d)
      has_decl (inl s) n = cc
      has_decl (inr f) n = f.1

  pub add_lines_lem :
      (uses : List OneUse) (lines : List Line)
      → All IsReady uses
      → (lines' : List Line) × (add_lines facts uses lines ≡ some lines')
        × ((h : Text) → HasLine h lines → HasLine h lines')
        × All (λ u. Counts u → HasLine u.suggested_header lines') uses
  unfolding add_lines
  add_lines_lem [] lines ready = (lines, refl, λ h has. has, tt)
  add_lines_lem (u ∷ uses) lines ready =
      let (l₁, e₁, keep₁, own) = add_line_lem u lines ready.0 in
      let (l₂, e₂, keep₂, rest) = add_lines_lem uses l₁ ready.1 in
      (l₂, rw e₁ e₂, λ h has. keep₂ h (keep₁ h has), (λ c. keep₂ u.suggested_header (own c), rest))
