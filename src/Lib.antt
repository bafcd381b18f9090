-- ===== src/Lib.antt =====
-- include-what-you-use: which headers a C++ file should include, by the symbols that it uses.
--
-- The program visits the AST of a file and records its uses (iwyu.cc). For each file, iwyu_output.cc then
-- sorts the uses into those that need a header and those that a forward declaration serves, picks a small
-- set of headers that serves them, marks the lines that the file should have, and prints the difference to
-- the lines that it has. The headers that stand for a private header or a symbol come from the include
-- picker (iwyu_include_picker.cc), and headers are named as quoted includes by iwyu_path_util.cc. While Clang
-- preprocesses the file, iwyu_preprocessor.cc fills the records of the files, feeds the picker, and obeys
-- the pragmas in comments. iwyu_globals.cc reads the command line. Strings and containers are those of
-- iwyu_string_util.h and iwyu_stl_util.h.
--
-- Files, and the code that they model:
--   Base, Base/*: lists, Boolean tests, keys of containers, and `CHECK_` of iwyu_port.h: a condition that
--     fails ends the program, which is `none` here.
--   Text: iwyu_string_util.h. A string is the list of its bytes. Text/Find, Strip, Split, Words, Room and
--     Order hold the proofs.
--   Container: iwyu_stl_util.h. `std::map` and `std::set` are lists in the order of their keys.
--   PathUtil: iwyu_path_util.cc; PathUtil/SearchPaths: SortByDescendingLength and
--     NormalizeHeaderSearchPaths of iwyu_globals.cc. The path functions of llvm are the record PathApi.
--   Output/Use: OneUse of iwyu_output.h. Output/Facts: what the passes ask Clang, the preprocessor's
--     records and the picker, as records of functions, and the small tests over them.
--   Output/Headers: SetPublicHeaders and SetCanonicalHeaders of OneUse, over the picker; the passes take
--     them as the record HeaderSource of Output/Use.
--   Output/Process: ProcessForwardDeclare, ProcessFullUse, ProcessSymbolUse.
--   Output/Minimal: CalculateMinimalIncludes. A loop over the uses is for_each, which passes the uses and
--     the desired headers on; the set of unmapped uses is a flag at each use.
--   Output/Verdict: CalculateIwyuForForwardDeclareUse and CalculateIwyuForFullUse.
--   Output/Line: OneIncludeOrForwardDeclareLine and OutputLine. Output/Desired:
--     CalculateDesiredIncludesAndForwardDeclares and CleanupPrefixHeaderIncludes; a pass over a multimap
--     from keys to lines is a pass over the lines. Output/Diffs: PrintableDiffs and its sort order.
--   Output/FileInfo: the state of IwyuFileInfo and its Add functions. Output/FileInfo/Violations:
--     CalculateIwyuViolations and CalculateAndReportIwyuViolations. An associated header is a record of
--     what its own analysis left.
--   Picker: the state of IncludePicker with the functions that change it and the queries.
--     Picker/Direct: AddDirectInclude. Picker/Mappings: AddMappingsFromFile; what the parser of llvm reads is
--     the record MappingApi.
--     Picker/Transitive: ExpandOnce, MakeNodeTransitive, MakeMapTransitive, ExpandRegexes,
--     FinalizeAddedIncludes. Picker/Queries: the queries by symbol and by declaration, HasMapping, IsPublic.
--   Output/Report: the Report functions of IwyuFileInfo, which record uses, and EmitWarningMessages.
--   Output/Forward: MungedForwardDeclareLine, over the shape of a declaration; for the lines of the report
--     this text is a fact.
--   Lexer: iwyu_lexer_utils.cc. A location is a number, and the text from there on is a parameter.
--   Regex: iwyu_regex.cc; the engines are the record RegexEngines.
--   Globals: CommandlineFlags and ParseArgv of iwyu_globals.cc; Globals/Numbers: ParseIntegerOptarg and
--     atoi; Globals/Argv: OptionsParser. What getopt_long returns is a list of options.
--   Preprocessor: the state of IwyuPreprocessorInfo, with the picker and the flags, which its handlers
--     change too. Preprocessor/Pragma: HandlePragmaComment and the end of a file. Preprocessor/Include:
--     AddDirectInclude and MaybeProtectInclude. Preprocessor/Headername: the directives
--     @headername. Preprocessor/Events: macros, and files that begin or are skipped. Preprocessor/Finish:
--     the post-processing of the files. Preprocessor/Graph: the transitive include map and the queries.
--     Preprocessor/Provide: PopulateIntendsToProvideMap and HandlePreprocessingDone, which runs all of it.
--     What the handlers ask Clang is the record SourceApi.
--   The modules Tests hold runs on small inputs, with the parameters of Samples.
--
-- Bounds and fuel. The loop of the set cover has as much fuel as there are uses, since a round gives a
-- header to one use at least. MakeNodeTransitive has one more than there are keys, since it goes down
-- through keys that were not visited. Split has one more than the length of the text. A decimal number has
-- one more than itself. NormalizeNamespaces has one more than the length of the symbol, and the directives
-- @headername one more than that of the file. The walk of the include graph has as much as there are
-- includes in all files, since it goes down only for a file that is not in its result yet.
-- AddMappingsFromFile has fuel for the depth of the references between mapping files: in the program too a
-- file that refers to itself is read for ever.
--
-- Not modelled: the AST visitors and the functions on the AST (iwyu.cc, iwyu_ast_util.cc, most of
-- iwyu_location_util.cc), which are functions on data of Clang and stand as parameters; the driver and the
-- platform glue; iwyu_getopt.cc, a copy of an external library; the log messages and iwyu_verrs.cc; the
-- cache, keyed by AST nodes; the built-in tables of the picker; InitGlobals.
pub mod Base
pub mod Text
pub mod Container
pub mod PathUtil
pub mod Output
pub mod Picker
pub mod Lexer
pub mod Regex
pub mod Globals
pub mod Preprocessor
pub mod Samples
