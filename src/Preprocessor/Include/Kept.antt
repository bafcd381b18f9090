-- ===== src/Preprocessor/Include/Kept.antt =====
-- MaybeProtectInclude on an include that is to be kept.
use include_what_you_use.Base.{
  Bool, true, false, ◌||◌, some, List, [], ◌∷◌, ◌++◌, ◌≡◌, ◌≢◌, refl, sym, subst, ◌∙◌, ap, arith,
  if◌then◌else◌, if-cases,
}
use include_what_you_use.Base.Checked.{◌>>=◌, check, >>=-eq-some, some-eq}
use include_what_you_use.Text.{Text, text}
use include_what_you_use.Container.{find_in_map, map_set, map_contains_key}
use include_what_you_use.Container.Laws.{find_in_map-set_self, find_in_map-set_ne}
use include_what_you_use.PathUtil.{is_quoted_include}
use include_what_you_use.Output.Use.{SourceLocation, OneUse}
use include_what_you_use.Output.Desired.{contains_file}
use include_what_you_use.Output.FileInfo.{
  FileInfo, insert_file, report_known_desired_file, include_file_use,
}
use include_what_you_use.Output.Report.{report_include_file_use, add_use}
use include_what_you_use.Preprocessor.{
  File, file_key, file_eq_iff, PreprocessorInfo, SourceApi, file_info_for, is_special_file_or_stdin,
  should_keep, change_file_info, get_from_file_info_map, get_file_path,
}
use include_what_you_use.Preprocessor.Pragma.{has_open_begin_keep}
use include_what_you_use.Preprocessor.Include.{
  line_has_pragma, keep_include, protect_include, maybe_protect_include,
}

contains_file-insert :
    (files : List File) (file : File) → contains_file (insert_file files file) file ≡ true
contains_file-insert files file =
    if-cases (λ fs. contains_file fs file ≡ true) (contains_file files file) (λ there. there)
      (λ missing. ground (arith, file_eq_iff file file))

first_branch :
    {A : Type 0} (b c : Bool) {x : A} (y : A) {r : A}
    → (b || c) ≡ true
    → (if b then x else if c then x else y) ≡ r
    → x ≡ r
first_branch true c y h e = e
first_branch false true y h e = e
first_branch false false y h e = absurd (cc)

module _ (api : SourceApi) where
  -- The file has a record that keeps the include and ends with a use of it; no other record is touched.
  pub record IsKept (s : PreprocessorInfo) (includer includee : File) (t : PreprocessorInfo)
      : Type 0 where
    pub info : FileInfo
    pub last_use : OneUse
    pub old_uses : List OneUse
    pub has_info : find_in_map t.iwyu_file_info_map includer ≡ some info
    pub kept : contains_file info.kept_includes includee ≡ true
    pub used : info.symbol_uses ≡ old_uses ++ last_use ∷ []
    pub about : last_use.decl_file ≡ includee
    pub others :
        (f : File)
        → includer ≢ f
        → find_in_map t.iwyu_file_info_map f ≡ find_in_map s.iwyu_file_info_map f

  -- The record of one file is this, and those of the others are as they were.
  abbrev Only : PreprocessorInfo → File → FileInfo → PreprocessorInfo → Type 0
  Only s file info t =
      (find_in_map t.iwyu_file_info_map file ≡ some info)
      × ((f : File)
          → file ≢ f
          → find_in_map t.iwyu_file_info_map f ≡ find_in_map s.iwyu_file_info_map f)

  set-Only :
      (s t : PreprocessorInfo) (file : File) (info : FileInfo)
      → some (record s { iwyu_file_info_map = map_set s.iwyu_file_info_map file info }) ≡ some t
      → Only s file info t
  set-Only s t file info e = subst (Only s file info) (some-eq e) (
    find_in_map-set_self s.iwyu_file_info_map file info,
    λ f ne. find_in_map-set_ne s.iwyu_file_info_map file info f ne,
  )

  keep_include-Only :
      (s t : PreprocessorInfo) (includer includee : File)
      → keep_include api s includer includee ≡ some t
      → (info : FileInfo) × Only s includer (report_known_desired_file info includee) t
  unfolding keep_include
  keep_include-Only s t includer includee e =
      let (info, _, e₁) = >>=-eq-some (file_info_for api s includer) _ e in
      (info, set-Only s t includer (report_known_desired_file info includee) e₁)

  abbrev WithUse : FileInfo → OneUse → FileInfo
  WithUse info u = record info { symbol_uses = info.symbol_uses ++ u ∷ [] }

  use_of_include :
      (info changed : FileInfo) (includee : File) (name : Text) (loc : SourceLocation)
      → report_include_file_use (get_file_path api) info includee name loc ≡ some changed
      → (u : OneUse) × (u.decl_file ≡ includee) × (WithUse info u ≡ changed)
  unfolding report_include_file_use include_file_use add_use
  use_of_include info changed includee name loc e =
      let (u, made, e₁) =
        >>=-eq-some (include_file_use (get_file_path api includee) includee name loc) _ e in
      let (_, _, made') = >>=-eq-some (check (is_quoted_include name)) _ made in
      (u, sym (ap (λ v. v.decl_file) (some-eq made')), some-eq e₁)

  get_found :
      (s : PreprocessorInfo) (file : File) (info : FileInfo)
      → find_in_map s.iwyu_file_info_map file ≡ some info
      → get_from_file_info_map api s file ≡ some (info, s)
  unfolding get_from_file_info_map
  get_found s file info found = rw (found, get_from_file_info_map) refl

  protect_include-Only :
      (s t : PreprocessorInfo) (loc : SourceLocation) (includer includee : File) (name : Text)
      (info : FileInfo)
      → find_in_map s.iwyu_file_info_map includer ≡ some info
      → protect_include api s loc includer includee name ≡ some t
      → (u : OneUse) × (u.decl_file ≡ includee) × Only s includer (WithUse info u) t
  unfolding protect_include change_file_info
  protect_include-Only s t loc includer includee name info found e =
      let (_, _, e₁) = >>=-eq-some (check (map_contains_key s.iwyu_file_info_map includer)) _ e in
      let (r, got, e₂) = >>=-eq-some (get_from_file_info_map api s includer) _ e₁ in
      let same : (info, s) ≡ r = some-eq (sym (get_found s includer info found) ∙ got) in
      let (changed, made, e₃) =
        >>=-eq-some (report_include_file_use (get_file_path api) r.0 includee name loc) _ e₂ in
      let (u, about, used) = use_of_include r.0 changed includee name loc made in
      (
        u,
        about,
        subst (λ q. Only q.1 includer (WithUse q.0 u) t) (sym same)
            (subst (λ i. Only r.1 includer i t) (sym used) (set-Only r.1 t includer changed e₃)),
      )

  keep_include-IsKept :
      (s t : PreprocessorInfo) (loc : SourceLocation) (includer includee : File) (name : Text)
      → (keep_include api s includer includee >>= λ k.
          protect_include api k loc includer includee name)
        ≡ some t
      → IsKept s includer includee t
  unfolding report_known_desired_file
  keep_include-IsKept s t loc includer includee name e =
      let (k, e₁, e₂) = >>=-eq-some (keep_include api s includer includee) _ e in
      let (info, marked) = keep_include-Only s k includer includee e₁ in
      let (u, about, written) =
        protect_include-Only k t loc includer includee name
          (report_known_desired_file info includee) marked.0 e₂ in
      record {
        info = WithUse (report_known_desired_file info includee) u;
        last_use = u;
        old_uses = info.symbol_uses;
        has_info = written.0;
        kept = contains_file-insert info.kept_includes includee;
        used = refl;
        about = about;
        others = λ f ne. written.1 f ne ∙ marked.1 f ne;
      }

  -- If the includer is no special file, its line or an open region or a flag asks to keep the include, and
  -- MaybeProtectInclude returns, then the includer has a record that keeps the included file, and of which the
  -- last use is one of that file; the records of the other files are as they were.
  pub maybe_protect_include-IsKept :
      (s t : PreprocessorInfo) (loc : SourceLocation) (includee : File) (name : Text)
      (keep_line : Bool)
      → is_special_file_or_stdin api (api.file_of_loc loc) ≡ false
      → line_has_pragma api loc (text "keep") ≡ some keep_line
      → (keep_line || has_open_begin_keep api s (api.file_of_loc loc) || should_keep api s includee)
        ≡ true
      → maybe_protect_include api s loc includee name ≡ some t
      → IsKept s (api.file_of_loc loc) includee t
  unfolding maybe_protect_include
  maybe_protect_include-IsKept s t loc includee name keep_line plain read keeps e =
      let e₁ = rw plain at e in
      let (k, read', e₂) = >>=-eq-some (line_has_pragma api loc (text "keep")) _ e₁ in
      let (x, _, e₃) = >>=-eq-some (line_has_pragma api loc (text "export")) _ e₂ in
      let same : keep_line ≡ k = some-eq (sym read ∙ read') in
      keep_include-IsKept s t loc (api.file_of_loc loc) includee name (
        first_branch (k || has_open_begin_keep api s (api.file_of_loc loc))
          (should_keep api s includee) _ (ground (arith, keeps, same)) e₃)
