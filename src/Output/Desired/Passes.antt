-- ===== src/Output/Desired/Passes.antt =====
-- The loops that mark lines for full uses and for forward declarations.
use include_what_you_use.Base.{
  ℕ, Bool, true, false, not, ◌||◌, some, List, [], ◌∷◌, ◌≡◌, refl, ◌⊎◌, inl, inr, arith, All,
  Bool-cases, map,
}
use include_what_you_use.Text.{Text}
use include_what_you_use.Output.Use.{OneUse, is_full_use, has_suggested_header}
use include_what_you_use.Output.Line.{Line}
use include_what_you_use.Output.Desired.{
  comment_name, mark_full_use, mark_full_uses, mark_declaration, mark_fwd_decl_use,
  mark_fwd_decl_uses,
}
use include_what_you_use.Output.Desired.Marks.{
  HasLine, IsMarked, Keeps, HasLine-map, IsMarked-map, mark_full_use-Keeps, mark_pointer_use-Keeps,
  mark_declaration-Keeps, mark_full_use-marks, mark_pointer_use-marks, IsReady, Counts,
}

-- What a marking loop keeps.
pub record Passes (lines lines' : List Line) : Type 0 where
  pub has_line : (h : Text) → HasLine h lines → HasLine h lines'
  pub is_marked : (h : Text) → IsMarked h lines → IsMarked h lines'

pub Passes-refl : (lines : List Line) → Passes lines lines
Passes-refl lines = record { has_line = λ h x. x; is_marked = λ h x. x }

pub Passes-trans : (a b c : List Line) → Passes a b → Passes b c → Passes a c
Passes-trans a b c p q = record {
  has_line = λ h x. q.has_line h (p.has_line h x);
  is_marked = λ h x. q.is_marked h (p.is_marked h x);
}

pub Passes-map :
    (f : Line → Line) (lines : List Line) → ((h : Text) → Keeps h f) → Passes lines (map f lines)
Passes-map f lines k = record {
  has_line = λ h. HasLine-map h f lines (k h);
  is_marked = λ h. IsMarked-map h f lines (k h);
}

module _ (with_namespace : Bool) where
  pub mark_full_uses_lem :
      (uses : List OneUse) (lines : List Line)
      → All IsReady uses
      → (lines' : List Line) × (mark_full_uses with_namespace uses lines ≡ some lines')
        × Passes lines lines'
        × All (λ u. Counts u → is_full_use u ≡ true → IsMarked u.suggested_header lines') uses
  unfolding mark_full_uses
  mark_full_uses_lem [] lines ready = (lines, refl, Passes-refl lines, tt)
  mark_full_uses_lem (u ∷ uses) lines ready =
      elim (Bool-cases (u.ignore_use || not (is_full_use u))) [
        | inl skipped ↦
            let (l, e, p, rest) = mark_full_uses_lem uses lines ready.1 in
            (l, ground (arith, skipped, e), p, (λ c f. ground (arith, skipped, c.0, f), rest))
        | inr meant ↦
            let f = mark_full_use u.suggested_header (comment_name with_namespace u) in
            let (l, e, p, rest) = mark_full_uses_lem uses (map f lines) ready.1 in
            let step =
              Passes-map f lines
                (λ h. mark_full_use-Keeps h u.suggested_header (comment_name with_namespace u)) in
            (
              l,
              ground (
                arith,
                meant,
                has_header (ready.0 (ground (arith, meant))) (ground (arith, meant)),
                e,
              ),
              Passes-trans lines _ l step p,
              (
                λ c g.
                    p.is_marked u.suggested_header (
                      mark_full_use-marks u.suggested_header (comment_name with_namespace u) lines),
                rest,
              ),
            )
      ]
    where
      has_header :
          (has_suggested_header u ≡ true)
            ⊎ ((is_full_use u ≡ false) × ((d : ℕ) × (u.decl ≡ some d)))
          → is_full_use u ≡ true
          → has_suggested_header u ≡ true
      has_header (inl s) f = s
      has_header (inr n) f = cc (n.0, f)

  pub mark_fwd_decl_use_lem :
      (u : OneUse) (lines : List Line)
      → IsReady u
      → (Counts u → HasLine u.suggested_header lines)
      → (lines' : List Line) × (mark_fwd_decl_use with_namespace u lines ≡ some lines')
        × Passes lines lines'
        × (Counts u → is_full_use u ≡ false → IsMarked u.suggested_header lines')
  unfolding mark_fwd_decl_use
  mark_fwd_decl_use_lem u lines ready has = elim (Bool-cases (u.ignore_use || is_full_use u)) [
    | inl skipped ↦
        (lines, ground (arith, skipped), Passes-refl lines, λ c f. ground (arith, skipped, c.0, f))
    | inr meant ↦
        let i : u.ignore_use ≡ false = ground (arith, meant) in
        elim (Bool-cases (has_suggested_header u)) [
          | inl s ↦ (
            _,
            ground (arith, meant, s, has (i, s)),
            Passes-map _ lines
                (λ h. mark_pointer_use-Keeps h u.suggested_header (comment_name with_namespace u)),
            λ c f. mark_pointer_use-marks u.suggested_header (comment_name with_namespace u) lines,
          )
          | inr n ↦
              let (d, e) = has_decl (ready i) n in
              (
                map (mark_declaration d) lines,
                ground (arith, meant, n, e),
                Passes-map _ lines (λ h. mark_declaration-Keeps h d),
                λ c f. cc,
              )
        ]
  ]
    where
      has_decl :
          (has_suggested_header u ≡ true)
            ⊎ ((is_full_use u ≡ false) × ((d : ℕ) × (u.decl ≡ some d)))
          → has_suggested_header u ≡ false
          → (d : ℕ) × (u.decl ≡ some d)
      has_decl (inl s) n = cc
      has_decl (inr f) n = f.1

  pub mark_fwd_decl_uses_lem :
      (uses : List OneUse) (lines : List Line)
      → All IsReady uses
      → All (λ u. Counts u → HasLine u.suggested_header lines) uses
      → (lines' : List Line) × (mark_fwd_decl_uses with_namespace uses lines ≡ some lines')
        × Passes lines lines'
        × All (λ u. Counts u → is_full_use u ≡ false → IsMarked u.suggested_header lines') uses
  unfolding mark_fwd_decl_uses
  mark_fwd_decl_uses_lem [] lines ready has = (lines, refl, Passes-refl lines, tt)
  mark_fwd_decl_uses_lem (u ∷ uses) lines ready has =
      let (l₁, e₁, p₁, own) = mark_fwd_decl_use_lem u lines ready.0 has.0 in
      let (l₂, e₂, p₂, rest) = mark_fwd_decl_uses_lem uses l₁ ready.1 (lift uses l₁ p₁ has.1) in
      (
        l₂,
        rw e₁ e₂,
        Passes-trans lines l₁ l₂ p₁ p₂,
        (λ c f. p₂.is_marked u.suggested_header (own c f), rest),
      )
    where
      lift :
          (us : List OneUse) (l₁ : List Line)
          → Passes lines l₁
          → All (λ u. Counts u → HasLine u.suggested_header lines) us
          → All (λ u. Counts u → HasLine u.suggested_header l₁) us
      lift [] l₁ p a = tt
      lift (v ∷ us) l₁ p a = (λ c. p.has_line v.suggested_header (a.0 c), lift us l₁ p a.1)
