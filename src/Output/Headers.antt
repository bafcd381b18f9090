-- ===== src/Output/Headers.antt =====
-- iwyu_output.cc: `SetPublicHeaders` and `SetCanonicalHeaders` of `OneUse`, which ask the include picker.
pub mod Origin
mod Tests
use include_what_you_use.Base.{
  Bool, not, Option, some, none, List, [], ◌∷◌, if◌then◌else◌, is_empty,
}
use include_what_you_use.Base.Checked.{◌>>=◌, ◌>>◌, check}
use include_what_you_use.Text.{Text}
use include_what_you_use.Output.Use.{
  OneUse, Decl, SourceLocation, full, fwd_decl, has_suggested_header,
}
use include_what_you_use.Picker.{IncludePicker, PickerApi}
use include_what_you_use.Picker.Queries.{
  get_candidate_headers_for_symbol_fwd_decl, get_mapped_public_headers,
  get_mapped_public_headers_of_decl, get_mapped_public_headers_of_header,
}

-- What Clang knows of a declaration and of a location: whether it is C++, the qualified name as it is
-- written, with and without the argument types, and the path of the file.
pub record DeclNames : Type 0 where
  pub cplusplus : Decl → Bool
  pub written_name : Decl → Bool → Text
  pub file_path : SourceLocation → Text

module _ (api : PickerApi) (p : IncludePicker) (names : DeclNames) where
  unfoldable pub set_canonical_headers : OneUse → Option OneUse
  unfolding get_mapped_public_headers_of_header
  set_canonical_headers u = elim u.public_headers [
    | [] ↦ some u
    | (header ∷ _) ↦ (do
      canonical ← get_mapped_public_headers_of_header api p header (names.file_path u.use_loc)
      some (record u { canonical_headers = header ∷ canonical }))
  ]

  -- The headers of the declaration, or of the symbol where the use has no declaration.
  unfoldable pub mapped_headers : OneUse → Option (List Text)
  unfolding get_mapped_public_headers get_mapped_public_headers_of_decl
  mapped_headers u = elim u.decl [
    | some decl ↦
        get_mapped_public_headers_of_decl api p (names.cplusplus decl) (names.written_name decl)
          (names.file_path u.use_loc) u.decl_filepath
    | none ↦
        get_mapped_public_headers api p u.symbol_name (names.file_path u.use_loc) u.decl_filepath
  ]

  unfoldable pub set_public_headers : OneUse → Option OneUse
  unfolding set_canonical_headers mapped_headers get_candidate_headers_for_symbol_fwd_decl
  set_public_headers u = do
    check (not (has_suggested_header u))
    elim u.use_kind [
      | fwd_decl ↦ (do
        headers ←
            get_candidate_headers_for_symbol_fwd_decl api p u.symbol_name
              (names.file_path u.use_loc)
        set_canonical_headers (record u { public_headers = headers }))
      | full ↦ (do
        mapped ← mapped_headers u
        headers ←
            (if is_empty mapped
              then (api.quote u.decl_filepath >>= λ quoted. some (quoted ∷ []))
              else some mapped)
        set_canonical_headers (record u { public_headers = headers }))
    ]
