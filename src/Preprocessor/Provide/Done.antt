-- ===== src/Preprocessor/Provide/Done.antt =====
-- The maps of the include graph when the preprocessor is through.
use include_what_you_use.Base.{true, some, ◌≡◌, ◌⊎◌}
use include_what_you_use.Output.Use.{FileEntry}
use include_what_you_use.Output.FileInfo.{FileInfo}
use include_what_you_use.Preprocessor.{File, PreprocessorInfo, SourceApi}
use include_what_you_use.Preprocessor.Finish.{is_public_file}
use include_what_you_use.Preprocessor.Graph.{
  file_transitively_includes, public_header_intends_to_provide,
}

-- The state after PopulateIntendsToProvideMap, which sets that map and nothing else.
module _ (api : SourceApi) where
  -- What is known of a file and its direct includes.
  abbrev pub Knows : PreprocessorInfo → FileEntry → File → Type 0
  Knows t entry inc =
      (public_header_intends_to_provide t (some entry) (some entry) ≡ true)
      × ((is_public_file api t (some entry) ≡ some true)
          ⊎ (public_header_intends_to_provide t (some entry) inc ≡ true))
      × (file_transitively_includes t (some entry) inc ≡ true)
