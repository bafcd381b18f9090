-- ===== src/Output/Desired/Surplus.antt =====
-- What the passes after the marking leave of the desired lines of a header.
use include_what_you_use.Base.{
  ℕ, ◌≤◌, Bool, true, false, not, ◌&&◌, ◌||◌, Option, List, [], ◌∷◌, ◌≡◌, refl, ap, ◌∙◌, inl, inr,
  arith, Bool-cases, any_of, count_if, map, if◌then◌else◌,
}
use include_what_you_use.Text.{Text, text_eq}
use include_what_you_use.Text.Order.{text_key, text_eq_iff}
use include_what_you_use.Container.{Set, contains}
use include_what_you_use.Output.Line.{Line, DeclFacts, is_include_line, matches_include}
use include_what_you_use.Output.Desired.{
  contains_file, clear_associated, is_surplus, clear_if_surplus, clear_surplus, keep_line,
  keep_macro,
}
use include_what_you_use.Output.Desired.Marks.{HasLine, IsMarked, Keeps}

-- A line that asks for a header.
abbrev pub wants : Text → Line → Bool
wants h l = matches_include h l && l.is_desired

pub clear_associated-Keeps :
    (associated : Set Text) (h : Text)
    → contains associated h ≡ false
    → Keeps h (clear_associated associated)
unfolding clear_associated matches_include is_include_line
clear_associated-Keeps associated h away l = (
  ground arith,
  λ m d. elim (Bool-cases (contains associated l.quoted_include)) [
    | inr other ↦ ground (arith, other, d)
    | inl listed ↦
        let e = (text_eq_iff l.quoted_include h).0 (ground (arith, m)) in
        cc (listed, ap_contains l.quoted_include h e, away)
  ],
)
  where
    ap_contains : (q h : Text) → q ≡ h → contains associated q ≡ contains associated h
    ap_contains q h e = rw e refl

pub keep_line-Keeps : (kept : List (Option ℕ)) (h : Text) → Keeps h (keep_line kept)
unfolding keep_line matches_include is_include_line
keep_line-Keeps kept h l = (ground arith, λ m d. ground arith)

pub keep_macro-Keeps : (facts : DeclFacts) (h : Text) → Keeps h (keep_macro facts)
unfolding keep_macro matches_include is_include_line
keep_macro-Keeps facts h l = (ground arith, λ m d. ground arith)

pub any_wanted-map :
    (h : Text) (f : Line → Line) (lines : List Line)
    → Keeps h f
    → any_of (wants h) lines ≡ true
    → any_of (wants h) (map f lines) ≡ true
any_wanted-map h f [] k w = w
any_wanted-map h f (l ∷ lines) k w = ground (arith, (k l).0, (k l).1, any_wanted-map h f lines k, w)

pub contains-cons :
    (headers : Set Text) (q h : Text)
    → contains (q ∷ headers) h ≡ (text_eq q h || contains headers h)
unfolding contains
contains-cons headers q h = refl

-- The headers so far, after a line.
pub noted : Set Text → Line → Set Text
noted headers l = if is_include_line l then l.quoted_include ∷ headers else headers

pub noted-other :
    (headers : Set Text) (l : Line) (h : Text)
    → matches_include h l ≡ false
    → contains (noted headers l) h ≡ contains headers h
unfolding noted matches_include
noted-other headers l h other = ground (arith, other, contains-cons headers l.quoted_include h)

pub noted-same :
    (headers : Set Text) (l : Line) (h : Text)
    → matches_include h l ≡ true
    → contains (noted headers l) h ≡ true
unfolding noted matches_include
noted-same headers l h m = ground (arith, m, contains-cons headers l.quoted_include h)

-- A line of a header is surplus if the header was seen before.
pub is_surplus-same :
    (headers : Set Text) (decls : List (Option ℕ)) (l : Line) (h : Text)
    → matches_include h l ≡ true
    → is_surplus headers decls l ≡ contains headers h
unfolding is_surplus matches_include
is_surplus-same headers decls l h m =
    let e = (text_eq_iff l.quoted_include h).0 (ground (arith, m)) in
    let i : is_include_line l ≡ true = ground (arith, m) in rw i (ap (contains headers) e)

pub wants-clear :
    (h : Text) (surplus : Bool) (l : Line)
    → wants h (clear_if_surplus surplus l) ≡ (wants h l && (not surplus || l.is_elaborated_type))
unfolding clear_if_surplus matches_include is_include_line
wants-clear h surplus l = ground arith

-- The first line of a header stays.
pub clear_surplus-wanted :
    (h : Text) (headers : Set Text) (decls : List (Option ℕ)) (lines : List Line)
    → contains headers h ≡ false
    → HasLine h lines
    → IsMarked h lines
    → any_of (wants h) (clear_surplus headers decls lines) ≡ true
clear_surplus-wanted h headers decls [] fresh has marked = cc
clear_surplus-wanted h headers decls (l ∷ lines) fresh has marked =
    let own = wants-clear h (is_surplus headers decls l) l in
    elim (Bool-cases (matches_include h l)) [
      | inl m ↦
          clear-cons-own
            (ground (arith, own, m, marked.0 m, is_surplus-same headers decls l h m, fresh))
      | inr other ↦ clear-cons-rest (
          clear_surplus-wanted h (noted headers l) _ lines (noted-other headers l h other ∙ fresh)
            (ground (arith, has, other)) marked.1)
    ]
  where
    clear-cons-own :
        wants h (clear_if_surplus (is_surplus headers decls l) l) ≡ true
        → any_of (wants h) (clear_surplus headers decls (l ∷ lines)) ≡ true
    clear-cons-own w = unfold clear_surplus in (ground (arith, w))

    clear-cons-rest :
        any_of (wants h) (
            clear_surplus
              (noted headers l)
              (if is_include_line l then decls else l.fwd_decl ∷ decls)
              lines)
          ≡ true
        → any_of (wants h) (clear_surplus headers decls (l ∷ lines)) ≡ true
    clear-cons-rest w = unfold clear_surplus noted in (ground (arith, w))

-- A line that asks for a header without a reason of its own.
abbrev pub wants_plainly : List (Option ℕ) → Text → Line → Bool
wants_plainly kept h l =
    wants h l && not l.is_elaborated_type && not (contains_file kept l.included_file)

pub plain-clear :
    (kept : List (Option ℕ)) (h : Text) (surplus : Bool) (l : Line)
    → wants_plainly kept h (clear_if_surplus surplus l) ≡ (wants_plainly kept h l && not surplus)
unfolding clear_if_surplus matches_include is_include_line
plain-clear kept h surplus l = ground arith

pub clear_surplus-once :
    (kept : List (Option ℕ)) (h : Text) (headers : Set Text) (decls : List (Option ℕ))
    (lines : List Line)
    → count_if (wants_plainly kept h) (clear_surplus headers decls lines)
      ≤ (if contains headers h then 0 else 1)
unfolding clear_surplus noted
clear_surplus-once kept h headers decls [] = ground arith
clear_surplus-once kept h headers decls (l ∷ lines) =
    let own = plain-clear kept h (is_surplus headers decls l) l in
    let decls' = if is_include_line l then decls else l.fwd_decl ∷ decls in
    let rest = clear_surplus-once kept h (noted headers l) decls' lines in
    elim (Bool-cases (matches_include h l)) [
      | inl m ↦
          ground
            (arith, own, m, is_surplus-same headers decls l h m, rest, noted-same headers l h m)
      | inr other ↦ ground (arith, own, other, rest, noted-other headers l h other)
    ]

pub count_if-map :
    {A : Type 0} (p : A → Bool) (f : A → A) (xs : List A)
    → ((x : A) → p (f x) ≡ p x)
    → count_if p (map f xs) ≡ count_if p xs
count_if-map p f [] e = refl
count_if-map p f (x ∷ xs) e = ground (arith, e x, count_if-map p f xs e)

pub keep_line-plain :
    (kept : List (Option ℕ)) (h : Text) (l : Line)
    → wants_plainly kept h (keep_line kept l) ≡ wants_plainly kept h l
unfolding keep_line matches_include is_include_line
keep_line-plain kept h l = ground arith

pub keep_macro-plain :
    (facts : DeclFacts) (kept : List (Option ℕ)) (h : Text) (l : Line)
    → wants_plainly kept h (keep_macro facts l) ≡ wants_plainly kept h l
unfolding keep_macro matches_include is_include_line
keep_macro-plain facts kept h l = ground arith
