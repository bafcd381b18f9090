-- ===== src/Output/Headers/Origin.antt =====
-- What `SetPublicHeaders` leaves at a use.
use include_what_you_use.Base.{
  true, false, not, Option, some, none, List, [], ◌∷◌, ◌≡◌, refl, sym, subst, is_empty,
  if◌then◌else◌,
}
use include_what_you_use.Base.Checked.{◌>>=◌, check, >>=-eq-some, some-eq}
use include_what_you_use.Text.{Text}
use include_what_you_use.Output.Use.{
  OneUse, Decl, UseKind, full, fwd_decl, is_full_use, has_suggested_header,
}
use include_what_you_use.Picker.{
  IncludePicker, MappedInclude, PickerApi, best_quoted_includes_for_includer,
}
use include_what_you_use.Picker.Queries.{
  get_candidate_headers_for_symbol_fwd_decl, get_mapped_public_headers_of_header,
}
use include_what_you_use.Picker.Queries.Mapped.{
  IsOrigin, get_mapped_public_headers_lem, get_mapped_public_headers_of_decl_lem,
}
use include_what_you_use.Output.Headers.{
  DeclNames, set_canonical_headers, mapped_headers, set_public_headers,
}

module _ (api : PickerApi) (p : IncludePicker) (names : DeclNames) where
  -- The headers name public files, or the declaring file, or a file whose friend the includer is.
  abbrev pub HaveOrigin : OneUse → List Text → Type 0
  HaveOrigin u headers =
      (is_empty headers ≡ false)
      × (values : List MappedInclude) × (best_quoted_includes_for_includer api p values
            (names.file_path u.use_loc)
          ≡ some headers)
      × IsOrigin api p u.decl_filepath (names.file_path u.use_loc) values

  -- The canonical headers are the first public header and what the picker maps it to.
  abbrev pub IsCanonical : OneUse → List Text → List Text → Type 0
  IsCanonical u headers canonical =
      is_empty headers ≡ false
      → (header : Text) × (others mapped : List Text) × (headers ≡ header ∷ others)
        × (get_mapped_public_headers_of_header api p header (names.file_path u.use_loc)
            ≡ some mapped)
        × (canonical ≡ header ∷ mapped)

  set_canonical_headers_lem :
      (u f : OneUse) (headers : List Text)
      → set_canonical_headers api p names (record u { public_headers = headers }) ≡ some f
      → (canonical : List Text) × (f
          ≡ record u { public_headers = headers; canonical_headers = canonical })
        × IsCanonical u headers canonical
  unfolding set_canonical_headers
  set_canonical_headers_lem u f [] e = (u.canonical_headers, sym (some-eq e), λ h. cc)
  set_canonical_headers_lem u f (header ∷ others) e =
      let (mapped, em, e₁) = >>=-eq-some _ _ e in
      (header ∷ mapped, sym (some-eq e₁), λ _. (header, others, mapped, refl, em, refl))

  mapped_headers-HaveOrigin :
      (u : OneUse) (headers : List Text)
      → mapped_headers api p names u ≡ some headers
      → HaveOrigin u headers
  unfolding mapped_headers
  mapped_headers-HaveOrigin u headers e = by_decl u.decl e
    where
      by_decl :
          (decl : Option Decl)
          → mapped_headers api p names (record u { decl = decl }) ≡ some headers
          → HaveOrigin u headers
      by_decl none e =
          get_mapped_public_headers_lem api p u.symbol_name (names.file_path u.use_loc)
            u.decl_filepath headers e
      by_decl (some decl) e =
          let (some_header, values, are_named, origin, _) =
            get_mapped_public_headers_of_decl_lem api p (names.cplusplus decl)
              (names.written_name decl) (names.file_path u.use_loc) u.decl_filepath headers e in
          (some_header, values, are_named, origin)

  abbrev HasHeaders : OneUse → OneUse → Type 0
  HasHeaders u f =
      (headers canonical : List Text) × (f
        ≡ record u { public_headers = headers; canonical_headers = canonical })
      × (is_full_use u ≡ true → HaveOrigin u headers)
      × IsCanonical u headers canonical

  mapped_kept :
      (mapped headers : List Text) (quoted : Option Text)
      → is_empty mapped ≡ false
      → (if is_empty mapped then (quoted >>= λ quoted. some (quoted ∷ [])) else some mapped)
        ≡ some headers
      → mapped ≡ headers
  mapped_kept [] headers quoted h e = cc
  mapped_kept (m ∷ ms) headers quoted h e = some-eq e

  of_kind :
      (u f : OneUse) (kind : UseKind)
      → set_public_headers api p names (record u { use_kind = kind }) ≡ some f
      → HasHeaders (record u { use_kind = kind }) f
  unfolding set_public_headers
  of_kind u f full e =
      let (_, _, e₁) = >>=-eq-some (check (not (has_suggested_header u))) _ e in
      let (mapped, em, e₂) = >>=-eq-some _ _ e₁ in
      let (headers, eh, e₃) = >>=-eq-some _ _ e₂ in
      let origin = mapped_headers-HaveOrigin (record u { use_kind = full }) mapped em in
      let (canonical, ef, leading) =
        set_canonical_headers_lem (record u { use_kind = full }) f headers e₃ in
      (
        headers,
        canonical,
        ef,
        (λ _.
            subst (λ h. HaveOrigin u h)
              (mapped_kept mapped headers (api.quote u.decl_filepath) origin.0 eh) origin),
        leading,
      )
  of_kind u f fwd_decl e =
      let (_, _, e₁) = >>=-eq-some (check (not (has_suggested_header u))) _ e in
      let (headers, _, e₂) =
        >>=-eq-some
          (get_candidate_headers_for_symbol_fwd_decl api p u.symbol_name
            (names.file_path u.use_loc))
          _ e₁ in
      let (canonical, ef, leading) =
        set_canonical_headers_lem (record u { use_kind = fwd_decl }) f headers e₂ in
      (headers, canonical, ef, (λ h. cc), leading)

  -- If `SetPublicHeaders` returns, then it changes only the public and the canonical headers of the use. A
  -- full use has one public header at least, each of a public file, of the declaring file or of a file whose
  -- friend the includer is. Where there are public headers, the canonical ones are the first of them and what
  -- the picker maps it to.
  pub set_public_headers_lem :
      (u f : OneUse)
      → set_public_headers api p names u ≡ some f
      → (headers canonical : List Text) × (f
          ≡ record u { public_headers = headers; canonical_headers = canonical })
        × (is_full_use u ≡ true → HaveOrigin u headers)
        × IsCanonical u headers canonical
  set_public_headers_lem u f e = of_kind u f u.use_kind e
