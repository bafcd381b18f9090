-- ===== src/Output/Line/Width.antt =====
-- The width of the lines of the report.
use include_what_you_use.Base.{
  ℕ, ◌+◌, ◌-◌, ◌≤◌, ◌<◌, max, true, false, some, List, [], ◌∷◌, ◌++◌, ◌≡◌, refl, sym, ◌∙◌, ◌⊎◌, inl,
  inr, arith, Bool-cases, is_empty, length, length-append, replicate, ltb, append_assoc, append-nil,
}
use include_what_you_use.Text.{Text, text, ellipsize}
use include_what_you_use.Text.Strip.{ellipsize_lem}
use include_what_you_use.Output.Line.{OutputLine, append_symbols, printable_line}

-- A text that goes on from another, within a width.
record Extends (front : Text) (width : ℕ) (out : Text) : Type 0 where
  rest : Text
  extends : out ≡ front ++ rest
  fits : length out ≤ max (length front) width

is_empty-length : {A : Type 0} (xs : List A) → (length xs ≡ 0) ⊎ (is_empty xs ≡ false)
is_empty-length [] = inl refl
is_empty-length (x ∷ xs) = inr refl

Extends-back :
    (width : ℕ) (front mid out : Text)
    → Extends (front ++ mid) width out
    → length front + length mid ≤ width
    → Extends front width out
Extends-back width front mid out e l = record {
  rest = mid ++ e.rest;
  extends = e.extends ∙ append_assoc front mid e.rest;
  fits = omega (arith, e.fits, length-append front mid, l);
}

append_symbols-Extends :
    (width : ℕ) (result prefix : Text) (symbols : List Text)
    → Extends result width (append_symbols false width result prefix symbols)
unfolding append_symbols
append_symbols-Extends width result prefix [] = record {
  rest = [];
  extends = sym (append-nil result);
  fits = omega arith;
}
append_symbols-Extends width result prefix (s ∷ symbols) =
    let shown = ellipsize s (width - (length result + length prefix)) in
    let e = append_symbols-Extends width (result ++ prefix ++ shown) (text ", ") symbols in
    elim (Bool-cases (is_empty shown)) [
      | inl nothing ↦
          rw nothing (record { rest = []; extends = sym (append-nil result); fits = omega arith })
      | inr found ↦
          let room = (ellipsize_lem s (width - (length result + length prefix))).0 in
          let long = nonempty shown found in
          rw found (
            Extends-back width result prefix _
              (Extends-back width (result ++ prefix) shown _ e
                (omega (arith, length-append result prefix, room, long)))
              (omega (arith, room, long)))
    ]
  where
    nonempty : (t : Text) → is_empty t ≡ false → 1 ≤ length t
    nonempty [] h = cc
    nonempty (c ∷ t) h = omega arith

-- If a line of the report is cut at `max_length` columns, then it is printed for every positive
-- `max_length`: it starts with the line's own text, and it is shorter than `max_length`, or no longer than
-- that text.
pub printable_line-fits :
    (min_length max_length : ℕ) (l : OutputLine)
    → 0 < max_length
    → (out : Text) × (printable_line false min_length max_length l ≡ some out)
      × (length out ≤ max (length l.text_of) (max_length - 1))
      × ((rest : Text) × (out ≡ l.text_of ++ rest))
unfolding printable_line
printable_line-fits min_length max_length l pos = elim (Bool-cases (is_empty l.symbols)) [
  | inl plain ↦ (l.text_of, rw plain refl, omega arith, ([], sym (append-nil l.text_of)))
  | inr named ↦
      let e =
        append_symbols-Extends (max_length - 1) l.text_of
          (replicate (min_length - length l.text_of) 32 ++ text "  // for ") l.symbols in
      (
        append_symbols false (max_length - 1) l.text_of
            (replicate (min_length - length l.text_of) 32 ++ text "  // for ") l.symbols,
        rw named (rw (positive pos) refl),
        e.fits,
        (e.rest, e.extends),
      )
]
  where
    positive : 0 < max_length → ltb 0 max_length ≡ true
    positive h = ground arith
