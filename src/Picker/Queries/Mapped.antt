-- ===== src/Picker/Queries/Mapped.antt =====
-- Where the headers of a symbol or a declaration come from.
use include_what_you_use.Base.{
  Bool, true, false, not, ◌&&◌, Option, some, List, [], ◌∷◌, ◌≡◌, refl, sym, subst, ◌∙◌, ◌⊎◌, inl,
  inr, All, Elem, if◌then◌else◌, is_empty,
}
use include_what_you_use.Base.Checked.{◌>>=◌, check, >>=-eq-some, some-eq}
use include_what_you_use.Text.{Text}
use include_what_you_use.Text.Order.{text_key}
use include_what_you_use.Container.{get_or_default, contains}
use include_what_you_use.Picker.{
  IncludePicker, MappedInclude, PickerApi, mapped_include, get_candidate_headers_for_symbol,
  include_name_as_written, has_absolute_quoted_include, get_candidate_headers_for_filepath,
  best_quoted_includes_for_includer, get_candidate_headers_for_filepath_included_from,
}
use include_what_you_use.Picker.Public.{IsVisible, get_public_values_lem, candidates-IsVisible}
use include_what_you_use.Picker.Queries.{
  get_candidate_headers_for_symbol_used_from, get_mapped_public_headers,
  get_mapped_public_headers_of_decl,
}

module _ (api : PickerApi) (p : IncludePicker) where
  -- The includer is a friend of the header, by the name that the includer has in its own directory.
  abbrev pub IsFriend : Text → Text → Type 0
  IsFriend header including =
      (quoted : Text) × (api.quote_from including including ≡ some quoted)
      × (contains (get_or_default p.friend_to_headers_map quoted []) header ≡ true)

  -- The values are public, or the one value is the declaring file, or the includer is its friend.
  abbrev pub IsOrigin : Text → Text → List MappedInclude → Type 0
  IsOrigin header including values =
      All (IsVisible p) values
      ⊎ ((self : MappedInclude) × (values ≡ self ∷ [])
          × ((self.path ≡ header) ⊎ IsFriend header including))

  best-is_empty :
      (values : List MappedInclude) (including : Text) (out : List Text)
      → best_quoted_includes_for_includer api p values including ≡ some out
      → is_empty out ≡ is_empty values
  unfolding best_quoted_includes_for_includer
  best-is_empty [] including out e = subst (λ o. is_empty o ≡ true) (some-eq e) refl
  best-is_empty (v ∷ values) including out e =
      let (rest, _, e₁) =
        >>=-eq-some (best_quoted_includes_for_includer api p values including) _ e in
      by_name rest (not (is_empty (include_name_as_written p.include_as_written including v.path)))
        (has_absolute_quoted_include api v && not (is_empty v.path))
        (include_name_as_written p.include_as_written including v.path) v.quoted_include
        (api.quote_from v.path including) out e₁
    where
      by_name :
          (rest : List Text) (written absolute : Bool) (name quoted_include : Text)
          (quoted : Option Text) (out : List Text)
          → (if written
              then some (name ∷ rest)
              else if absolute
              then (quoted >>= λ quoted. some (quoted ∷ rest))
              else some (quoted_include ∷ rest))
            ≡ some out
          → is_empty out ≡ false
      by_name rest true absolute name q quoted out e =
          subst (λ o. is_empty o ≡ false) (some-eq e) refl
      by_name rest false false name q quoted out e =
          subst (λ o. is_empty o ≡ false) (some-eq e) refl
      by_name rest false true name q quoted out e =
          let (_, _, e₁) = >>=-eq-some quoted _ e in
          subst (λ o. is_empty o ≡ false) (some-eq e₁) refl

  abbrev AreNamed : Text → List Text → List MappedInclude → Type 0
  AreNamed including out values =
      best_quoted_includes_for_includer api p values including ≡ some out

  used_from_lem :
      (symbol including : Text) (out : List Text)
      → get_candidate_headers_for_symbol_used_from api p symbol including ≡ some out
      → (values : List MappedInclude) × AreNamed including out values
        × All (IsVisible p) values
        × ((v : MappedInclude)
            → Elem v (get_or_default p.symbol_include_map symbol [])
            → IsVisible p v
            → Elem v values)
  unfolding get_candidate_headers_for_symbol_used_from get_candidate_headers_for_symbol
  used_from_lem symbol including out e =
      let (values, e₁, named) = >>=-eq-some (get_candidate_headers_for_symbol p symbol) _ e in
      let (_, _, e₂) = >>=-eq-some (check p.has_called_finalize_added_include_lines) _ e₁ in
      let (visible, complete, _) = get_public_values_lem p p.symbol_include_map symbol values e₂ in
      (values, named, visible, complete)

  included_from_lem :
      (header including : Text) (out : List Text)
      → get_candidate_headers_for_filepath_included_from api p header including ≡ some out
      → (values : List MappedInclude) × AreNamed including out values
        × (is_empty values ≡ false)
        × IsOrigin header including values
  unfolding get_candidate_headers_for_filepath_included_from
  included_from_lem header including out e =
      let (includer, q, e₁) = >>=-eq-some (api.quote_from including including) _ e in
      let (includee, _, e₂) = >>=-eq-some (api.quote_from header including) _ e₁ in
      let (values, m, named) = >>=-eq-some _ _ e₂ in
      let (some_value, origin) = by_friend includer includee values q _ refl m in
      (values, named, some_value, origin)
    where
      by_friend :
          (includer includee : Text) (values : List MappedInclude)
          → api.quote_from including including ≡ some includer
          → (friend : Bool)
          → contains (get_or_default p.friend_to_headers_map includer []) header ≡ friend
          → (if friend
              then (mapped_include includee including >>= λ m. some (m ∷ []))
              else get_candidate_headers_for_filepath api p header including)
            ≡ some values
          → (is_empty values ≡ false) × IsOrigin header including values
      by_friend includer includee values q true friend e =
          let (m, _, e₁) = >>=-eq-some (mapped_include includee including) _ e in
          subst (λ o. (is_empty o ≡ false) × IsOrigin header including o) (some-eq e₁)
            (refl, inr (m, refl, inr (includer, q, friend)))
      by_friend includer includee values q false _ e =
          let (some_value, origin) = candidates-IsVisible api p header including values e in
          (
            some_value,
            elim origin [
              | inl visible ↦ inl visible
              | inr (self, same, own) ↦ inr (self, same, inl own)
            ],
          )

  -- The headers of a name, and those of the declaring file where the name has none.
  by_name_or_file :
      (symbol including header : Text) (named out : List Text)
      → get_candidate_headers_for_symbol_used_from api p symbol including ≡ some named
      → (if not (is_empty named)
          then some named
          else get_candidate_headers_for_filepath_included_from api p header including)
        ≡ some out
      → (is_empty out ≡ false)
        × (values : List MappedInclude) × AreNamed including out values
        × IsOrigin header including values
  by_name_or_file symbol including header [] out _ e =
      let (values, named, some_value, origin) = included_from_lem header including out e in
      (best-is_empty values including out named ∙ some_value, values, named, origin)
  by_name_or_file symbol including header (n ∷ ns) out en e =
      let (values, named, visible, _) = used_from_lem symbol including (n ∷ ns) en in
      subst
        (λ o.
          (is_empty o ≡ false)
          × (values : List MappedInclude) × AreNamed including o values
          × IsOrigin header including values)
        (some-eq e) (refl, values, named, inl visible)

  pub get_mapped_public_headers_lem :
      (symbol_name use_path decl_filepath : Text) (out : List Text)
      → get_mapped_public_headers api p symbol_name use_path decl_filepath ≡ some out
      → (is_empty out ≡ false)
        × (values : List MappedInclude) × AreNamed use_path out values
        × IsOrigin decl_filepath use_path values
  unfolding get_mapped_public_headers
  get_mapped_public_headers_lem symbol_name use_path decl_filepath out e =
      let (named, en, e₁) = >>=-eq-some _ _ e in
      by_name_or_file symbol_name use_path decl_filepath named out en e₁

  no_value :
      (values : List MappedInclude) (v : MappedInclude) → is_empty values ≡ true → Elem v values → ⊥
  no_value [] v e m = absurd m
  no_value (w ∷ values) v e m = cc

  -- The headers `out` name the values, which are in order for the header and the includer, and if
  -- `mapped` holds, then the public headers of the symbol are among them.
  abbrev IsServed : Bool → Text → Text → Text → List Text → Type 0
  IsServed mapped symbol including header out =
      (is_empty out ≡ false)
      × (values : List MappedInclude) × AreNamed including out values
      × IsOrigin header including values
      × ((v : MappedInclude)
          → mapped ≡ true
          → Elem v (get_or_default p.symbol_include_map symbol [])
          → IsVisible p v
          → Elem v values)

  abbrev or_bare_name : Text → Text → Text → List Text → Option (List Text)
  or_bare_name bare including header named = if not (is_empty named) then some named else (do
    symbol_headers ← get_candidate_headers_for_symbol_used_from api p bare including
    if not (is_empty symbol_headers)
        then some symbol_headers
        else get_candidate_headers_for_filepath_included_from api p header including)

  or_bare_name-IsServed :
      (symbol bare including header : Text) (named out : List Text)
      → get_candidate_headers_for_symbol_used_from api p symbol including ≡ some named
      → or_bare_name bare including header named ≡ some out
      → IsServed true symbol including header out
  or_bare_name-IsServed symbol bare including header [] out en e =
      let (symbol_headers, es, e₁) = >>=-eq-some _ _ e in
      let (some_value, values, are_named, origin) =
        by_name_or_file bare including header symbol_headers out es e₁ in
      let (none_public, named, _, complete) = used_from_lem symbol including [] en in
      (
        some_value,
        values,
        are_named,
        origin,
        λ v _ m visible. absurd (
            no_value none_public v (sym (best-is_empty none_public including [] named))
              (complete v m visible)),
      )
  or_bare_name-IsServed symbol bare including header (n ∷ ns) out en e =
      let (values, named, visible, complete) = used_from_lem symbol including (n ∷ ns) en in
      subst (λ o. IsServed true symbol including header o) (some-eq e)
        (refl, values, named, inl visible, λ v _. complete v)

  -- If `GetMappedPublicHeaders` of a declaration returns, then it gives one header at least; the headers
  -- name public files, or the declaring file itself, or a file whose friend the includer is. A public
  -- header that is mapped to the name of a C++ declaration with its argument types is among them.
  pub get_mapped_public_headers_of_decl_lem :
      (cplusplus : Bool) (written_name : Bool → Text) (use_path decl_filepath : Text)
      (out : List Text)
      → get_mapped_public_headers_of_decl api p cplusplus written_name use_path decl_filepath
        ≡ some out
      → (is_empty out ≡ false)
        × (values : List MappedInclude) × AreNamed use_path out values
        × IsOrigin decl_filepath use_path values
        × ((v : MappedInclude)
            → cplusplus ≡ true
            → Elem v (get_or_default p.symbol_include_map (written_name true) [])
            → IsVisible p v
            → Elem v values)
  unfolding get_mapped_public_headers_of_decl
  get_mapped_public_headers_of_decl_lem true written_name use_path decl_filepath out e =
      let (named, en, e₁) = >>=-eq-some _ _ e in
      or_bare_name-IsServed (written_name true) (written_name false) use_path decl_filepath named
        out en e₁
  get_mapped_public_headers_of_decl_lem false written_name use_path decl_filepath out e =
      let (symbol_headers, es, e₁) = >>=-eq-some _ _ e in
      let (some_value, values, are_named, origin) =
        by_name_or_file (written_name false) use_path decl_filepath symbol_headers out es e₁ in
      (some_value, values, are_named, origin, λ v cplusplus. cc)
