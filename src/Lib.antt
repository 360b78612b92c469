-- ===== src/Lib.antt =====
-- sigmascope tells which log sources of Sigma rules a host generates. A run (sigmascope/api.py)
-- collects the host's audit configuration, parses it (sigmascope/parse/), evaluates each provider
-- of each catalogue entry (sigmascope/catalog.py, sigmascope/evaluate/) and resolves the providers
-- of an entry to one finding (sigmascope/evaluate/resolver.py). The report is written as a table
-- or as JSON (sigmascope/report/, sigmascope/__main__.py).
--
-- The files, with the code that they are about:
--   Base.antt, Base/: Boolean tests, lists, texts as lists of code points with the methods of
--     Python's str that the code calls, integers, and the record `Python` of what the code takes
--     from the interpreter's tables (lower, case folding, repr, digits). Its laws on ASCII text
--     are in `IsPython`, and `ascii_python` has them.
--   Model.antt: sigmascope/model.py. A frozenset is a list read by membership and emptiness.
--   Parse/AuditdRules.antt: `parse_auditd_rules` of sigmascope/parse/auditd_rules.py, with the
--     cutting of lines and the filter expressions in Parse/AuditdRules/Tokens.antt and `_parse_rule`
--     in Parse/AuditdRules/Line.antt. Order and Complete hold proofs.
--   Parse/AuditdStatus.antt: sigmascope/parse/auditd_status.py; Gates holds proofs.
--   Parse/SysmonCurrent.antt, Parse/SysmonCurrent/Patterns.antt: sigmascope/parse/sysmon_current.py;
--     Blocks holds proofs.
--   Parse/AuditpolCsv.antt: sigmascope/parse/auditpol_csv.py, over the rows that Base/Csv.antt reads
--     as the csv module does; Guid, Locate and States hold proofs.
--   Collect/Linux.antt: sigmascope/collect/linux/auditd.py; Outputs holds proofs, also on a run over
--     what it collects.
--   Collect/Windows/: sigmascope/collect/windows/. AuditpolCli is auditpol_cli.py, with proofs in
--     CliRows and Reported; Registry is registry.py, with proofs in Registry/Answers.antt; Channels
--     is channels.py; Services (`_service_state`), Image (`_service_image_path`) and Sysmon
--     (`collect_sysmon`) are sysmon.py, with proofs in Found, States and Blank of Sysmon/; Guid (`GUID`,
--     with the parts of Python's uuid that it calls) and AuditpolNative are auditpol_native.py, with
--     proofs in Digits, Dashes, Reading and RoundTrip of Guid/ and in Queries, Count and Entries of
--     AuditpolNative/. Calls is the history of calls that open, use and close handles, on which the
--     answers of a library depend; Handles holds proofs on it.
--   Evaluate/Auditd/: sigmascope/evaluate/auditd.py in Rules, Suppression, ProcessCreation and
--     FileWatch. Kernel states what the kernel does with rules (its task, exit and exclude lists), as the docstring of that file and
--     the manual pages that the catalogue cites have it; it is the specification that the proofs in
--     Covered, NotCovered, OtherArch and NeverRules compare the verdicts with. Watches and Targets
--     hold the proofs on `evaluate_file_watch`.
--   Evaluate/Sysmon.antt: sigmascope/evaluate/sysmon.py; Evaluate/Sysmon/Filtering.antt compares it
--     with the filtering of events by include and exclude blocks, from the gates and blocks that
--     Filtering/Reported.antt finds.
--   Evaluate/WindowsGates.antt: sigmascope/evaluate/windows_gates.py; its table is in
--     Evaluate/WindowsGates/Decision.antt.
--   Evaluate/Resolver.antt: sigmascope/evaluate/resolver.py, with proofs in Best and Decision.
--   Catalog.antt: sigmascope/catalog.py.
--   Api/: sigmascope/api.py. Evidence, Policy (`_native_policy_result`), Linux (`_run_linux`),
--     Windows (`_run_windows`) and Run (`run`, which collects from the Linux host itself). The
--     proofs are in States, Conservative and Mappings of Api/Linux/, in Cache, Asked,
--     Findings and Mappings of Api/Windows/ and in Api/Run/Audited.antt.
--   Report.antt: sigmascope/report/table_out.py. Cli.antt: sigmascope/__main__.py, with proofs
--     in Cli/Exit.antt.
--   Scripts/: scripts/. TestPypi is install_from_testpypi.py, ReleaseTag is verify_release_tag.py and
--     Validation is manual_windows_validation.py, with proofs in Attempts and Agreement.
--   Checks/: tests on concrete inputs, and the theorems at such inputs.
--
-- A ValueError or an OSError that ends a function is `none`, or `failed` in Cli.antt. Loops over
-- lines, tokens, rules and requirements are recursion on the list. Recursion on fuel is used for
-- the digits of a number alone: `digits_onto` gets n + 1 steps for the number n, which has at most
-- n + 1 digits.
--
-- Arguments of the model, since they are not of this code: the calls that the collectors make
-- (subprocess.run, the file system, the PATH, the registry, and advapi32, kernel32 and wevtapi, each
-- a function from the calls before it to its answer), the platform, the code page "oem", the
-- expansion of variables and the joining of paths on Windows, the clock, argparse and the JSON
-- encoder. The kernel's view of the fields of an event other than its architecture and system call
-- is the argument `holds`, and which call a number of a `-S` stands for is the argument `numbered`; which events Sysmon's filters match is the argument `matches`. The
-- csv module is that of Python 3.11 and later, which reads NUL as any other character.
--
-- Not modelled: the declarations of ctypes structures and prototypes, the JSON report, argparse, the
-- other scripts and tests/. The parsers of Api/ take text: in a run on Windows the decoding of the
-- Sysmon configuration from bytes is left out, and what the collectors return is an argument.
pub mod Base
pub mod Model
pub mod Parse
pub mod Evaluate
pub mod Catalog
pub mod Api
pub mod Collect
pub mod Scripts
pub mod Report
pub mod Cli
mod Checks
