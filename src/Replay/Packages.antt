-- ===== src/Replay/Packages.antt =====
-- What crates/lens-replay/src/lib.rs uses of the packages http and base64, and of the standard
-- library's network addresses.
use lens.Prelude.{Bool, Option}
use lens.Text.{Bytes}
use lens.Text.Result.{Result}

-- `http::Uri`, by the parts that are read of it
pub record Uri : Type 0 where
  pub scheme : Option Bytes
  pub authority : Option Bytes
  pub path_and_query : Option Bytes
  pub host : Option Bytes

-- `parse::<Method>`, `parse::<HeaderName>` and `HeaderValue::from_str` by their success,
-- `parse::<Uri>`, whether a host is the address of a loopback, and the decoder of base64 with its
-- error as it is printed.
pub record Packages : Type 0 where
  pub is_method : Bytes → Bool
  pub is_header_name : Bytes → Bool
  pub is_header_value : Bytes → Bool
  pub parse_uri : Bytes → Option Uri
  pub is_loopback : Bytes → Bool
  pub decode_base64 : Bytes → Result Bytes
