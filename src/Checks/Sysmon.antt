-- ===== src/Checks/Sysmon.antt =====
-- The parser of Sysmon's configuration at a concrete input.
use sigmascope.Base.{List, [], ◌≡◌, refl, lit, ascii_python, some, none, Text, Option, length}
use sigmascope.Model.{Rule, ParseResult}
use sigmascope.Parse.AuditdRules.Order.{Numbered}
use sigmascope.Parse.SysmonCurrent.Blocks.{parse_sysmon_current-Numbered}
use sigmascope.Checks.Compute.{rules_of}
use sigmascope.Parse.SysmonCurrent.{
  finish, effect_of, read_summary, read_line, read_lines, parse_sysmon_current,
}
use sigmascope.Parse.SysmonCurrent.Patterns.{
  match_summary, after_literal, take_alnum, take_event, take_effect, match_header, is_rule_version,
  value_here, find_value, filter_value, before_literal, unquote, padded_field, match_filter,
  starts_with, contains_text,
}

unfoldable config_of : Text → Option ParseResult
unfolding rules_of finish effect_of read_summary read_line read_lines parse_sysmon_current
    match_summary after_literal take_alnum take_event take_effect match_header is_rule_version
    value_here find_value filter_value before_literal unquote padded_field match_filter starts_with
    contains_text
config_of text = parse_sysmon_current ascii_python (lit "sysmon -c") text

-- A configuration with two blocks.
abbrev sysmon_text : Text
sysmon_text =
    lit
      "System Monitor\n - Network connection: disabled\nRule configuration (version 4.50):\n - ProcessCreate onmatch: exclude combine rules using 'Or'\n\tImage filter: is value: 'cmd.exe'\n - NetworkConnect onmatch: include combine rules using 'And'\n"

abbrev rules_in : Option ParseResult → List Rule
rules_in none = []
rules_in (some parsed) = parsed.rules

two_blocks_test : length (rules_in (config_of sysmon_text)) ≡ 2
unfolding config_of rules_of
two_blocks_test = refl

parse_sysmon_current-Numbered_example : Numbered 0 (rules_in (config_of sysmon_text))
unfolding config_of rules_of
parse_sysmon_current-Numbered_example =
    parse_sysmon_current-Numbered ascii_python (lit "sysmon -c") sysmon_text refl
