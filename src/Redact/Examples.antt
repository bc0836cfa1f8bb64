-- ===== src/Redact/Examples.antt =====
-- The properties of the redactor, applied to concrete messages.
use lens.Core.{client_to_server}
use lens.Prelude.{arith, List, none, ◌≡◌, refl, All, true, false, some, [], ◌∷◌, ◌++◌}
use lens.Protocol.{DecodedMessage, header_value}
use lens.Redact.Commands.{Shows, set, keep, redact-Shows}
use lens.Redact.Form.{Pairwise, PairInv, redact_pairs-split_byte}
use lens.Redact.Hidden.{Hidden, names, redact-Hidden}
use lens.Redact.Pairs.{redact_pairs}
use lens.Redact.Redactor.{redact, is_protocol}
use lens.Redact.Sql.{sql_loop}
use lens.Redact.SqlItems.{Item, plain, literal, numeral, line_comment}
use lens.Redact.SqlShown.{sql_loop_fuel}
use lens.Redact.Redis.{argument_values}
use lens.Redact.Tests.{no_match, set_command, program}
use lens.Redact.Unchanged.{redact_unchanged}
use lens.Text.{str, join, to_ascii_uppercase}
use lens.Text.Words.{split_byte}

abbrev login : DecodedMessage
login = record {
  direction = client_to_server;
  start_line = str "POST /login HTTP/1.1";
  headers = (str "Host", str "shop") ∷ (str "Authorization", str "Bearer abc") ∷ [];
  body = str "hello";
  truncated = false;
}

abbrev plain_request : DecodedMessage
plain_request = record login { headers = (str "Host", str "shop") ∷ [] }

plain_request_protocol : is_protocol (str "redis") plain_request ≡ false
unfolding program
plain_request_protocol = refl

plain_request_report : (redact no_match false plain_request).was_redacted ≡ false
unfolding program
plain_request_report = refl

redact_unchanged_example : (redact no_match false plain_request).safe ≡ plain_request
redact_unchanged_example =
    redact_unchanged no_match plain_request plain_request_protocol plain_request_report

redact-Hidden_example :
    let safe = (redact no_match false login).safe in
    All Hidden safe.headers × (names safe.headers ≡ names login.headers)
redact-Hidden_example = redact-Hidden no_match login

set_command_protocol : is_protocol (str "redis") set_command ≡ true
unfolding program
set_command_protocol = refl

set_command_name : header_value (str "redis-command") set_command.headers ≡ some (str "set")
unfolding program
set_command_name = refl

set_command_upper : Shows (to_ascii_uppercase (str "set")) (keep 1)
unfolding program
set_command_upper = set

redact-Shows_example :
    (redact no_match false set_command).safe.start_line
    ≡ str "Redis "
      ++ join
          (str " ")
          (to_ascii_uppercase (str "set") ∷ keep 1 (argument_values set_command.headers))
redact-Shows_example =
    redact-Shows no_match set_command (str "set") (keep 1) set_command_protocol set_command_name
      set_command_upper

redact_pairs-split_byte_example :
    let form = str "user=ann&password=secret&user=b" in
    Pairwise PairInv (split_byte b'&' [] form) (split_byte b'&' [] (redact_pairs form b'&').0)
    × ((redact_pairs (redact_pairs form b'&').0 b'&').0 ≡ (redact_pairs form b'&').0)
redact_pairs-split_byte_example = redact_pairs-split_byte (str "user=ann&password=secret&user=b")

-- x='a''b' 17.5e-3 --c and the end of the line
abbrev condition : List Item
condition =
    plain b'x'
    ∷ plain b'='
    ∷ literal (str "a'b")
    ∷ plain b' '
    ∷ numeral b'1' (str "7.5e-3")
    ∷ plain b' '
    ∷ line_comment (str "c")
    ∷ []

sql_loop_fuel_example : sql_loop 9 none (str "id = 'a'") ≡ sql_loop 20 none (str "id = 'a'")
unfolding str
sql_loop_fuel_example = sql_loop_fuel 9 20 none (str "id = 'a'") (omega arith) (omega arith)
