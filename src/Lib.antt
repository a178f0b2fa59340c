-- ===== src/Lib.antt =====
-- A model of the suite's checked inputs, its runner and its coverage report.
--
-- The suite runs scenarios against a Flatpak target and reports which catalogued requirements a run
-- has verified. The parts, and the files of this library that model them:
--
-- * json_validation.py is Json: the values and errors (Json/Value), the validators and the normalizer
--   (Json/Validate), and the decoder, which refuses a repeated key (Json/Decode). `json.loads` is a
--   parameter, a function from texts to documents; reading a file is another.
-- * typed_json.py is Typed. An annotation is a value of the data type Annotation (Typed/Forms), and
--   `_validate` is `validate`, by recursion on it.
-- * catalogue.py, catalogue_schema.py and report_schema.py are Schema and Coverage/Records.
--   Schema/Shapes has every TypedDict as an annotation; Schema/Index has `indexed`; Schema/Behaviors
--   has the parsers of behaviors, mappings and requirements; Coverage/Records
--   has the fields that the report reads, after parsing, a field of a `total=False` class as an Option.
-- * fixture_manifest.py is Fixture: a parser is the list of the fields that it reads (Fixture/Plan), and
--   `_known` closes it. Fixture/Contracts and Fixture/Manifest have the domain constraints.
-- * target_config.py is Target.
-- * coverage_report.py is Coverage: `CoverageModel.__init__` is Coverage/Model, `subject_problem` is
--   Coverage/Subject, `invoked_option` is Coverage/Options, `metric` is Coverage/Metric, and `summarize`
--   is Coverage/Summary: its verification is Coverage/Summary/Verify and its loop over the results is
--   Coverage/Credit. The rounding of a percentage is a parameter.
-- * library_features.py is Library; the compiler is a parameter.
-- * run.py is Runner: the exceptions and the forgiven failures (Runner/Failures), and `main` as a
--   function of what the run meets, which exceptions are raised and where (Runner/Attempt for one case,
--   Runner/Cases for the loops and the exit). `status` and the exception that is on its way are part of
--   the state; an exception of a class that no handler names leaves `main`, which then returns no status.
--   What the console writes is left out.
-- * run.py is Driver, too: `execute` and the methods of `Driver` (Driver/Commands, Driver/Calls,
--   Driver/Checks), and `scenario` (Driver/Scenario, Driver/Dispatch). A scenario is a script, a function
--   of the world that returns or raises; what the target does with a command line is the parameter
--   `exec`, and what is documented of it is the record Flatpak of Driver/Promise, over what is configured
--   and installed. `str.casefold` is a parameter. remote_scenarios.py is Driver/Commands and Driver/Remotes.
-- * oci_registry.py is Registry: `Image.load` is Registry/Layout, and what happens to a registry is the
--   step relation of Registry/Reach: publications, signatures (`registry.signatures[...] = ...` of
--   oci_signature_scenarios.py) and requests. `sha256`, `json.loads`, `json.dumps`, the reading of a URL
--   and `str` are parameters.
-- * scenario_catalogue.py is Scenarios. The rest of catalogue_schema.py is Schema/Groups
--   (`parse_catalogue`, `parse_scenario_group`) and Schema/Shards (`load_requirements`). What `pathlib`
--   says of a path is a parameter. The parser of report_schema.py is Schema/Reports.
--
-- Python's dictionaries are association lists in insertion order (Base/Dict); a set is a list without
-- repetition (Base/Sets). An exception is a value of Error, or of Failure in the runner. All loops run
-- over finite lists and all recursion is structural, so no fuel is needed.
--
-- Not modelled: the other scenarios, the preparation scripts, the C clients, the HTTP servers and the supervision
-- of processes, which are input and output; the rendering of reports; the hashing of files.
pub mod Base
pub mod Json
pub mod Typed
pub mod Schema
pub mod Fixture
pub mod Target
pub mod Coverage
pub mod Runner
pub mod Library
pub mod Driver
pub mod Registry
pub mod Scenarios
mod Examples
