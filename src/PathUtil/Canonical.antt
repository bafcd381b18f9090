-- ===== src/PathUtil/Canonical.antt =====
-- `GetCanonicalName` takes the header and the source files of one name together.
use include_what_you_use.Base.{
  ◌≤◌, Bool, true, false, not, ◌&&◌, ◌||◌, List, [], ◌∷◌, ◌++◌, ◌≡◌, refl, ◌⊎◌, inl, inr, arith, ap,
  sym, leb, if◌then◌else◌, length, Elem, Bool-cases, All, All-elem, length-append,
}
use include_what_you_use.Text.{Text, text_eq, ends_with, strip_right}
use include_what_you_use.Text.Order.{text_eq_iff}
use include_what_you_use.Text.Find.{ends_with_iff}
use include_what_you_use.Text.Strip.{strip_right-append}
use include_what_you_use.PathUtil.{
  strip_first, strip_extension, header_extensions, source_extensions,
}

-- Whether a text that ends in `e` may end in `s`.
may_end : Text → Text → Bool
unfolding ends_with
may_end e s = if leb (length s) (length e) then ends_with e s else ends_with s e

-- Of two ends of one text the shorter is an end of the longer.
end_of_end :
    (a b e s : Text) → a ++ e ≡ b ++ s → length s ≤ length e → (front : Text) × (e ≡ front ++ s)
end_of_end [] b e s h k = (b, h)
end_of_end (x ∷ a) [] e s h k = absurd (omega (arith, ap length h, length-append a e))
end_of_end (x ∷ a) (y ∷ b) e s h k = end_of_end a b e s (cc) k

ends_with-append : (p e s : Text) → may_end e s ≡ false → ends_with (p ++ e) s ≡ false
unfolding may_end
ends_with-append p e s h = elim (Bool-cases (ends_with (p ++ e) s)) [
  | inr no_end ↦ no_end
  | inl is_end ↦
      let (front, split) = (ends_with_iff (p ++ e) s).0 is_end in
      elim (Bool-cases (leb (length s) (length e))) [
        | inl short ↦
            cc ((ends_with_iff e s).1 (end_of_end p front e s split (ground arith)), rw short at h)
        | inr long ↦ cc (
          (ends_with_iff s e).1 (end_of_end front p s e (sym split) (ground arith)),
          rw long at h,
        )
      ]
]

-- `e` stands in the list, and nothing before it may end a text that ends in `e`.
comes_first : List Text → Text → Bool
unfolding may_end
comes_first [] e = false
comes_first (x ∷ xs) e = text_eq x e || (not (may_end e x) && comes_first xs e)

no_end : List Text → Text → Bool
unfolding may_end
no_end [] e = true
no_end (x ∷ xs) e = not (may_end e x) && no_end xs e

strip_right_no_end : (p e s : Text) → may_end e s ≡ false → strip_right (p ++ e) s ≡ (false, p ++ e)
unfolding strip_right
strip_right_no_end p e s h = rw (ends_with-append p e s h) refl

strip_first_found :
    (es : List Text) (p e : Text) → comes_first es e ≡ true → strip_first es (p ++ e) ≡ (true, p)
unfolding strip_first comes_first
strip_first_found [] p e h = cc
strip_first_found (x ∷ xs) p e h = elim (Bool-cases (text_eq x e)) [
  | inl same ↦ rw ((text_eq_iff x e).0 same) (rw (strip_right-append p e) refl)
  | inr other ↦ elim (Bool-cases (may_end e x)) [
    | inl may ↦ ground arith
    | inr never ↦
        rw (strip_right_no_end p e x never) (strip_first_found xs p e (rw (other, never) at h))
  ]
]

strip_first_missed :
    (es : List Text) (p e : Text) → no_end es e ≡ true → (strip_first es (p ++ e)).0 ≡ false
unfolding strip_first no_end
strip_first_missed [] p e h = refl
strip_first_missed (x ∷ xs) p e h = elim (Bool-cases (may_end e x)) [
  | inl may ↦ ground arith
  | inr never ↦ rw (strip_right_no_end p e x never) (strip_first_missed xs p e (rw never at h))
]

abbrev pub IsExtension : Text → Type 0
IsExtension e = Elem e header_extensions ⊎ Elem e source_extensions

header_first : All (λ e. comes_first header_extensions e ≡ true) header_extensions
unfolding comes_first may_end text_eq ends_with
header_first = (refl, (refl, (refl, (refl, (refl, (refl, tt))))))

source_second :
    All
      (λ e. (no_end header_extensions e && comes_first source_extensions e) ≡ true)
      source_extensions
unfolding comes_first may_end no_end text_eq ends_with
source_second =
    (refl, (refl, (refl, (refl, (refl, (refl, (refl, (refl, (refl, (refl, (refl, tt)))))))))))

pub strip_extension-append : (p e : Text) → IsExtension e → strip_extension (p ++ e) ≡ p
unfolding strip_extension
strip_extension-append p e (inl header) =
    rw
      (strip_first_found header_extensions p e (
        All-elem (λ e'. comes_first header_extensions e' ≡ true) e header_extensions header_first
          header))
      refl
strip_extension-append p e (inr source) =
    let facts =
      All-elem (λ e'. (no_end header_extensions e' && comes_first source_extensions e') ≡ true) e
        source_extensions source_second source in
    let missed = strip_first_missed header_extensions p e (ground arith) in
    let found = strip_first_found source_extensions p e (ground arith) in rw missed (rw found refl)
