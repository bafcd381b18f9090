-- ===== src/Preprocessor/Graph/Count.antt =====
-- Counts of what a list has, and the includes of a file among those of all files.
use include_what_you_use.Base.{
  ◌≤◌, ◌<◌, Bool, true, false, Option, none, some, List, [], ◌∷◌, ◌++◌, ◌≡◌, refl, sym, subst, inl,
  inr, arith, Elem, Elem-append_left, Elem-append_right, count_if, if◌then◌else◌,
}
use include_what_you_use.Base.Checked.{some-eq}
use include_what_you_use.Container.{Map, find_in_map}
use include_what_you_use.Output.FileInfo.{FileInfo}
use include_what_you_use.Preprocessor.{File, file_key}
use include_what_you_use.Preprocessor.Graph.{includes_of, all_includes}

-- Counts where one test is weaker than the other.
module _ {A : Type 0} (p q : A → Bool) (q→p : (a : A) → q a ≡ true → p a ≡ true) where
  pub count_if_le : (xs : List A) → count_if q xs ≤ count_if p xs
  count_if_le [] = omega arith
  count_if_le (x ∷ xs) = ground (arith, count_if_le xs, q→p x)

  pub count_if_lt :
      (a : A) (xs : List A) → p a ≡ true → q a ≡ false → Elem a xs → count_if q xs < count_if p xs
  count_if_lt a [] p_a q_a here = absurd here
  count_if_lt a (x ∷ xs) p_a q_a (inl e) =
      subst (λ y. count_if q (y ∷ xs) < count_if p (y ∷ xs)) e
        (rw p_a (rw q_a (omega (arith, count_if_le xs))))
  count_if_lt a (x ∷ xs) p_a q_a (inr later) = ground (arith, count_if_lt a xs p_a q_a later, q→p x)

pub found_includes-all :
    (infos : Map File FileInfo) (f g : File) (info : FileInfo)
    → find_in_map infos f ≡ some info
    → Elem g info.direct_includes_as_fileentries
    → Elem g (all_includes infos)
unfolding all_includes find_in_map
found_includes-all [] f g info e h = absurd (cc)
found_includes-all ((k, first) ∷ infos) f g info e h =
    by_test (file_key.beq k f) e (found_includes-all infos f g info)
  where
    by_test :
        (test : Bool)
        → (if test then some first else find_in_map infos f) ≡ some info
        → (find_in_map infos f ≡ some info
            → Elem g info.direct_includes_as_fileentries
            → Elem g (all_includes infos))
        → Elem g (first.direct_includes_as_fileentries ++ all_includes infos)
    by_test true e rec =
        Elem-append_left g _ _
          (subst (λ i. Elem g i.direct_includes_as_fileentries) (sym (some-eq e)) h)
    by_test false e rec =
        Elem-append_right g first.direct_includes_as_fileentries (all_includes infos) (rec e h)

pub includes_of-all :
    (infos : Map File FileInfo) (f g : File)
    → Elem g (includes_of infos f)
    → Elem g (all_includes infos)
unfolding includes_of
includes_of-all infos f g = by_found (find_in_map infos f) refl
  where
    by_found :
        (o : Option FileInfo)
        → find_in_map infos f ≡ o
        → Elem g (elim o [ none ↦ [] | some info ↦ info.direct_includes_as_fileentries ])
        → Elem g (all_includes infos)
    by_found none e h = absurd h
    by_found (some info) e h = found_includes-all infos f g info e h
