-- ===== src/PathUtil/Names.antt =====
-- `Basename`.
use include_what_you_use.Base.{
  ℕ, zero, suc, ◌+◌, true, none, some, [], ◌∷◌, ◌++◌, ◌≡◌, refl, ◌⊎◌, inl, inr, arith, sym, take,
  drop, Option-cases, take-append-drop, Elem,
}
use include_what_you_use.Text.{Text}
use include_what_you_use.PathUtil.{rfind, basename, back_is}

rfind-none : (s : Text) (c : ℕ) → rfind s c ≡ none → ¬ Elem c s
unfolding rfind
rfind-none [] c h m = m
rfind-none (x ∷ s) c h m = ground (arith, rfind-none s c)

back_is-cons : (c x : ℕ) (t : Text) → back_is c t ≡ true → back_is c (x ∷ t) ≡ true
back_is-cons c x [] h = cc
back_is-cons c x (y ∷ t) h = h

rfind-some :
    (s : Text) (c pos : ℕ)
    → rfind s c ≡ some pos
    → (back_is c (take (suc pos) s) ≡ true) × ¬ Elem c (drop (suc pos) s)
unfolding rfind
rfind-some [] c pos h = cc
rfind-some (x ∷ s) c zero h = ground (arith, rfind-none s c)
rfind-some (x ∷ s) c (suc pos) h =
    ground (arith, rfind-some s c pos, back_is-cons c x (take (suc pos) s))

-- `Basename` splits a path behind its last slash, or keeps it whole where there is none.
pub basename_lem :
    (path : Text)
    → (dir : Text) × (path ≡ dir ++ basename path)
      × ((dir ≡ []) ⊎ (back_is b'/' dir ≡ true))
      × ¬ Elem b'/' (basename path)
unfolding basename
basename_lem path = elim (Option-cases (rfind path b'/')) [
  | inl e ↦ rw (e, basename) ([], refl, inl refl, rfind-none path b'/' e)
  | inr (pos, e) ↦
      let (ends, clear) = rfind-some path b'/' pos e in
      let next : pos + 1 ≡ suc pos = omega arith in
      rw (e, basename)
        (rw next (take (suc pos) path, sym (take-append-drop (suc pos) path), inr ends, clear))
]
