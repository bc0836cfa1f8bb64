-- ===== src/Redact/Tests.antt =====
-- Runs of the redactor, after the tests of crates/lens-redact/src/lib.rs.
use lens.Core.{client_to_server}
use lens.Prelude.{◌≡◌, refl, true, false, [], ◌∷◌}
use lens.Protocol.{DecodedMessage, header_value}
use lens.Redact.Pairs.{redact_start_line}
use lens.Redact.Redactor.{JsonSecret, redact}
use lens.Redact.Sql.{redact_sql_literals}
use lens.Redact.Redis.{redis_argument_is_sensitive, argument_values}
use lens.Text.{str, eq_ignore_ascii_case}

unfoldable pub program : Unit {0}
unfolding redact_sql_literals redact_start_line redact str argument_values eq_ignore_ascii_case
    header_value redis_argument_is_sensitive
program = tt

run-redact_sql_literals :
    (redact_sql_literals
      (str "SELECT 'a''b', \"x\"\"y\", 42, t1 FROM t -- c\nWHERE $1 = $$z$$ /* q */")).0
    ≡ str "SELECT '?', \"x\"\"y\", ?, t1 FROM t -- [REDACTED]\nWHERE $1 = $$?$$ /* [REDACTED] */"
unfolding program
run-redact_sql_literals = refl

-- A number goes on over the dashes behind it, so a comment there is no comment to the scanner.
run-number_width : redact_sql_literals (str "SELECT 1--secret") ≡ (str "SELECT ?secret", true)
unfolding program
run-number_width = refl

-- A digit with a letter behind it begins no number.
run-exponent : redact_sql_literals (str "SELECT 1e5") ≡ (str "SELECT 1e5", false)
unfolding program
run-exponent = refl

run-redact_start_line :
    redact_start_line (str "POST /login?token=abc&safe=yes&api%5Fkey=1#top HTTP/1.1")
    ≡ (str "POST /login?token=[REDACTED]&safe=yes&api%5Fkey=[REDACTED]#top HTTP/1.1", true)
unfolding program
run-redact_start_line = refl

-- A regular expression that matches nothing.
abbrev pub no_match : JsonSecret
no_match = record { is_match = λ text. false; replace_all = λ text f. text }

abbrev pub set_command : DecodedMessage
set_command = record {
  direction = client_to_server;
  start_line = str "Redis SET key value";
  headers =
      (str "lens-protocol", str "redis")
      ∷ (str "redis-command", str "set")
      ∷ (str "redis-arg", str "key")
      ∷ (str "redis-arg", str "value")
      ∷ [];
  body = [];
  truncated = false;
}

run-redact : (redact no_match false set_command).safe.start_line ≡ str "Redis SET key [REDACTED]"
unfolding program
run-redact = refl
