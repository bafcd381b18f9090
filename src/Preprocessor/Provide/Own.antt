-- ===== src/Preprocessor/Provide/Own.antt =====
-- What a file provides of its own: itself, and what it includes, unless it is public.
use include_what_you_use.Base.{
  Bool, true, false, none, some, List, [], ◌∷◌, ◌≡◌, sym, subst, ◌∙◌, ap, ◌⊎◌, inl, inr, Elem,
  if◌then◌else◌,
}
use include_what_you_use.Base.Checked.{◌>>=◌, >>=-eq-some, some-eq}
use include_what_you_use.Container.{Map, Set, find_in_map, map_set, get_or_default, contains}
use include_what_you_use.Container.Laws.{contains_iff}
use include_what_you_use.Output.Use.{FileEntry}
use include_what_you_use.Output.FileInfo.{FileInfo}
use include_what_you_use.Preprocessor.{File, file_key, PreprocessorInfo, SourceApi}
use include_what_you_use.Preprocessor.Finish.{is_public_file}
use include_what_you_use.Preprocessor.Graph.{add_all_includes_as_fileentries}
use include_what_you_use.Preprocessor.Graph.Walk.{add_all_includes_as_fileentries-Walks}
use include_what_you_use.Preprocessor.Provide.{
  add_one_to, provide_reached, provide_direct, provide_own,
}
use include_what_you_use.Preprocessor.Provide.Grows.{
  DoesProvide, Grows, set-Grows, add_one_to-Grows, add_one_to-DoesProvide, provide_reached-Grows,
}

-- The walk keeps what is there.
walk-keeps :
    (infos : Map File FileInfo) (file : File) (seen after : Set File)
    → add_all_includes_as_fileentries infos file seen ≡ some after
    → (f : File) → contains seen f ≡ true
    → contains after f ≡ true
walk-keeps infos file seen after e f h =
    let (after', e', w) = add_all_includes_as_fileentries-Walks infos file seen in
    (contains_iff after f).1
      (subst (Elem f) (some-eq (sym e' ∙ e)) (w.keeps f ((contains_iff seen f).0 h)))

module _ (api : SourceApi) (s : PreprocessorInfo) where
  -- One include of a file, and whatever is behind a public one.
  provide_inc-Grows :
      (file inc : File) (is_public : Bool) (m m₁ : Map File (Set File))
      → (if is_public
          then (add_all_includes_as_fileentries s.iwyu_file_info_map inc (get_or_default m file [])
              >>= λ more. some (map_set m file more))
          else some m)
        ≡ some m₁
      → Grows m m₁
  provide_inc-Grows file inc true m m₁ e =
      let (more, e₁, e₂) =
        >>=-eq-some
          (add_all_includes_as_fileentries s.iwyu_file_info_map inc (get_or_default m file [])) _
          e in
      subst (Grows m) (some-eq e₂) (
        set-Grows m file more
          (walk-keeps s.iwyu_file_info_map inc (get_or_default m file []) more e₁))
  provide_inc-Grows file inc false m m₁ e = subst (Grows m) (some-eq e) (λ k f h. h)

  provide_direct-Grows :
      (file : File) (includes : List File) (m m' : Map File (Set File))
      → provide_direct api s file includes m ≡ some m'
      → Grows m m' × ((inc : File) → Elem inc includes → DoesProvide m' file inc)
  unfolding provide_direct
  provide_direct-Grows file [] m m' e =
      (subst (Grows m) (some-eq e) (λ k f h. h), λ inc h. absurd h)
  provide_direct-Grows file (inc ∷ includes) m m' e =
      let (is_public, _, e₁) = >>=-eq-some (is_public_file api s inc) _ e in
      let (m₁, e₂, e₃) =
        >>=-eq-some
          (if is_public
            then (add_all_includes_as_fileentries s.iwyu_file_info_map inc
                  (get_or_default (add_one_to m file inc) file [])
                >>= λ more. some (map_set (add_one_to m file inc) file more))
            else some (add_one_to m file inc))
          _ e₁ in
      let here = provide_inc-Grows file inc is_public (add_one_to m file inc) m₁ e₂ in
      let (later, provided) = provide_direct-Grows file includes m₁ m' e₃ in
      (
        λ k f h. later k f (here k f (add_one_to-Grows m file inc k f h)),
        λ i h. elim h [
          | inl same ↦
              subst (DoesProvide m' file) (sym same)
                (later file inc (here file inc (add_one_to-DoesProvide m file inc)))
          | inr h' ↦ provided i h'
        ],
      )

  -- What a file provides of its own.
  abbrev pub ProvidesOwn : FileEntry → FileInfo → Map File (Set File) → Type 0
  ProvidesOwn entry info m =
      DoesProvide m (some entry) (some entry)
      × ((is_public_file api s (some entry) ≡ some true)
          ⊎ ((inc : File)
              → Elem inc info.direct_includes_as_fileentries
              → DoesProvide m (some entry) inc))

  pub ProvidesOwn-Grows :
      (entry : FileEntry) (info : FileInfo) (m m' : Map File (Set File))
      → Grows m m'
      → ProvidesOwn entry info m
      → ProvidesOwn entry info m'
  ProvidesOwn-Grows entry info m m' grows (self, own) = (
    grows (some entry) (some entry) self,
    elim own [
      | inl is_public ↦ inl is_public
      | inr direct ↦ inr (λ inc h. grows (some entry) inc (direct inc h))
    ],
  )

  provide_file :
      (entry : FileEntry) (info : FileInfo) (is_public : Bool) (m m₁ : Map File (Set File))
      → is_public_file api s (some entry) ≡ some is_public
      → (if is_public
          then (find_in_map s.transitive_include_map (some entry) >>= λ reached.
              provide_reached api s.transitive_include_map reached
                (add_one_to m (some entry) (some entry)))
          else provide_direct api s
              (some entry)
              info.direct_includes_as_fileentries
              (add_one_to m (some entry) (some entry)))
        ≡ some m₁
      → Grows m m₁ × ProvidesOwn entry info m₁
  provide_file entry info true m m₁ p e =
      let with_self = add_one_to m (some entry) (some entry) in
      let (reached, _, e₁) = >>=-eq-some (find_in_map s.transitive_include_map (some entry)) _ e in
      let grows = provide_reached-Grows api s.transitive_include_map reached with_self m₁ e₁ in
      (
        λ k f h. grows k f (add_one_to-Grows m (some entry) (some entry) k f h),
        (
          grows (some entry) (some entry) (add_one_to-DoesProvide m (some entry) (some entry)),
          inl p,
        ),
      )
  provide_file entry info false m m₁ p e =
      let (grows, direct) =
        provide_direct-Grows (some entry) info.direct_includes_as_fileentries
          (add_one_to m (some entry) (some entry)) m₁ e in
      (
        λ k f h. grows k f (add_one_to-Grows m (some entry) (some entry) k f h),
        (
          grows (some entry) (some entry) (add_one_to-DoesProvide m (some entry) (some entry)),
          inr direct,
        ),
      )

  pub provide_own-ProvidesOwn :
      (infos : Map File FileInfo) (m m' : Map File (Set File))
      → provide_own api s infos m ≡ some m'
      → Grows m m'
        × ((entry : FileEntry) (info : FileInfo)
            → Elem (some entry, info) infos
            → ProvidesOwn entry info m')
  unfolding provide_own
  provide_own-ProvidesOwn [] m m' e =
      (subst (Grows m) (some-eq e) (λ k f h. h), λ entry info h. absurd h)
  provide_own-ProvidesOwn ((none, info) ∷ infos) m m' e =
      let (grows, own) = provide_own-ProvidesOwn infos m m' e in
      (grows, λ entry info' h. elim h [ inl same ↦ absurd (cc) | inr h' ↦ own entry info' h' ])
  provide_own-ProvidesOwn ((some first, info) ∷ infos) m m' e =
      let (is_public, p, e₁) = >>=-eq-some (is_public_file api s (some first)) _ e in
      let (m₁, e₂, e₃) =
        >>=-eq-some
          (if is_public
            then (find_in_map s.transitive_include_map (some first) >>= λ reached.
                provide_reached api s.transitive_include_map reached
                  (add_one_to m (some first) (some first)))
            else provide_direct api s (some first) info.direct_includes_as_fileentries
                (add_one_to m (some first) (some first)))
          _ e₁ in
      let (here, mine) = provide_file first info is_public m m₁ p e₂ in
      let (grows, own) = provide_own-ProvidesOwn infos m₁ m' e₃ in
      (
        λ k f h. grows k f (here k f h),
        λ entry info' h. elim h [
          | inl same ↦
              subst (λ i. ProvidesOwn entry i m') (sym (ap (λ q. q.1) same))
                (subst (λ n. ProvidesOwn n info m') (sym (some-eq (ap (λ q. q.0) same)))
                  (ProvidesOwn-Grows first info m₁ m' grows mine))
          | inr h' ↦ own entry info' h'
        ],
      )
