-- ===== src/Output/Verdict/Full.antt =====
-- When `CalculateIwyuForFullUse` ignores a use, and when it finds a violation.
use include_what_you_use.Base.{
  Bool, true, false, some, ◌≡◌, ◌≢◌, ◌↔◌, ◌⊎◌, inl, inr, arith, Bool-cases,
}
use include_what_you_use.Text.{Text, text_eq}
use include_what_you_use.Text.Order.{text_key, text_eq_iff}
use include_what_you_use.Container.{Set, contains}
use include_what_you_use.PathUtil.{PathApi, is_quoted_header_filename}
use include_what_you_use.Output.Use.{OneUse, is_full_use, has_suggested_header}
use include_what_you_use.Output.Verdict.{judge_full, calculate_iwyu_for_full_use}

judge_full_lem :
    (h inc same : Bool) (u : OneUse)
    → u.ignore_use ≡ false
    → u.is_iwyu_violation ≡ false
    → (((judge_full h inc same u).is_iwyu_violation ≡ true)
        ↔ ((inc ≡ false) × (h ≡ true) × (same ≡ false)))
      × (((judge_full h inc same u).ignore_use ≡ true)
          ↔ ((same ≡ true) ⊎ ((inc ≡ false) × (h ≡ false))))
unfolding judge_full
judge_full_lem true true true u i n = ground (arith, i, n)
judge_full_lem true true false u i n = ground (arith, i, n)
judge_full_lem true false true u i n = ground (arith, i, n)
judge_full_lem true false false u i n = ground (arith, i, n)
judge_full_lem false true true u i n = ground (arith, i, n)
judge_full_lem false true false u i n = ground (arith, i, n)
judge_full_lem false false true u i n = ground (arith, i, n)
judge_full_lem false false false u i n = ground (arith, i, n)

-- Let a full use that is not ignored have a suggested header in quoted form, and be no violation so far.
-- Then `CalculateIwyuForFullUse` returns. The use becomes a violation exactly if its header is not
-- included, is a header by its name and is not the file itself. It is ignored exactly if its header is the
-- file itself, or no header by its name and not included.
pub calculate_iwyu_for_full_use_lem :
    (sys : PathApi) (u : OneUse) (actual_includes : Set Text) (self : Text) (is_header : Bool)
    → u.ignore_use ≡ false
    → is_full_use u ≡ true
    → has_suggested_header u ≡ true
    → u.is_iwyu_violation ≡ false
    → is_quoted_header_filename sys u.suggested_header ≡ some is_header
    → (v : OneUse) × (calculate_iwyu_for_full_use sys u actual_includes self ≡ some v)
      × ((v.is_iwyu_violation ≡ true) ↔ (
          (contains actual_includes u.suggested_header ≡ false)
          × (is_header ≡ true)
          × (self ≢ u.suggested_header)))
      × ((v.ignore_use ≡ true) ↔ (
          (self ≡ u.suggested_header)
          ⊎ ((contains actual_includes u.suggested_header ≡ false) × (is_header ≡ false))))
calculate_iwyu_for_full_use_lem sys u actual_includes self is_header i f s n e =
    let same = text_eq_iff self u.suggested_header in
    let included = contains actual_includes u.suggested_header in
    let itself = text_eq self u.suggested_header in
    let (violation, ignored) = judge_full_lem is_header included itself u i n in
    (
      judge_full is_header included itself u,
      ready,
      (
        λ h. let (m, g, o) = violation.0 h in (m, g, λ e. cc (same.1 e, o)),
        λ (m, g, o). violation.1 (m, g, differs o same),
      ),
      (
        λ h. elim (ignored.0 h) [ inl s ↦ inl (same.0 s) | inr r ↦ inr r ],
        λ h. ignored.1 (elim h [ inl s ↦ inl (same.1 s) | inr r ↦ inr r ]),
      ),
    )
  where
    ready :
        calculate_iwyu_for_full_use sys u actual_includes self
        ≡ some (
            judge_full is_header
              (contains actual_includes u.suggested_header)
              (text_eq self u.suggested_header)
              u)
    ready = unfold calculate_iwyu_for_full_use in (ground (arith, i, f, s, e))

    differs :
        self ≢ u.suggested_header
        → (text_eq self u.suggested_header ≡ true) ↔ (self ≡ u.suggested_header)
        → text_eq self u.suggested_header ≡ false
    differs o same = elim (Bool-cases (text_eq self u.suggested_header)) [
      | inl t ↦ absurd (o (same.0 t))
      | inr t ↦ t
    ]
