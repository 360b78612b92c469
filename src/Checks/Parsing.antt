-- ===== src/Checks/Parsing.antt =====
-- The parsers on output of auditctl.
use sigmascope.Base.{◌≡◌, refl, Text, lit, ascii_python, negsuc}
use sigmascope.Base.{some, ◌==◌}
use sigmascope.Model.{ParseResult}
use sigmascope.Parse.AuditdRules.{parse_auditd_rules}
use sigmascope.Parse.AuditdRules.Line.{parse_rule}
use sigmascope.Parse.AuditdStatus.{parse_auditd_status, int_of}

abbrev rules_text : Text
rules_text =
    lit
      "-a always,exit -F arch=b64 -S execve,execveat -F key=exec\n-w /etc/passwd -p wa -k id\r\n\n-a exit,never -F auid=-1 -S 59"

parsed_rules : ParseResult
unfolding parse_auditd_rules parse_rule lit ◌==◌
parsed_rules = parse_auditd_rules ascii_python (lit "auditctl -l") rules_text

status_text : ParseResult
unfolding parse_auditd_status lit ◌==◌
status_text =
    parse_auditd_status ascii_python (lit "auditctl -s") (lit "enabled 1\nfailure 1\npid 742\n")

int_test : int_of ascii_python (lit "-1_0") ≡ some (negsuc 9)
unfolding int_of lit
int_test = refl
