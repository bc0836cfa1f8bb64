-- ===== src/Protocol.antt =====
-- crates/lens-protocol/src/lib.rs: the contract between the decoders and the store.
use lens.Prelude.{Bool, List, [], ◌∷◌, ◌++◌, Option, none, find?}
use lens.Core.{Direction}
use lens.Text.{Bytes, str, eq_ignore_ascii_case}
use mathlib.Core.Option

-- `(name, value)` pairs, in wire order
abbrev pub Headers : Type 0
Headers = List (Bytes × Bytes)

pub record DecodedMessage : Type 0 where
  pub direction : Direction
  pub start_line : Bytes
  pub headers : Headers
  pub body : Bytes
  pub truncated : Bool

abbrev pub summary : DecodedMessage → Bytes
summary m = m.start_line

unfoldable pub render_headers : Headers → Bytes
render_headers [] = []
render_headers ((name, value) ∷ hs) =
    name ++ (str ": " ++ (value ++ (str "\r\n" ++ render_headers hs)))

unfoldable pub render : DecodedMessage → Bytes
unfolding render_headers
render m = render_headers m.headers ++ (str "\r\n" ++ m.body)

pub record DecodeBatch : Type 0 where
  pub messages : List DecodedMessage
  pub desynchronized : Option Bytes

abbrev pub need_more : DecodeBatch
need_more = record { messages = []; desynchronized = none }

abbrev pub push_message : DecodeBatch → DecodedMessage → DecodeBatch
push_message b m = record b { messages = b.messages ++ m ∷ [] }

-- The batch with messages that came before it.
abbrev pub prepend : List DecodedMessage → DecodeBatch → DecodeBatch
prepend ms b = record b { messages = ms ++ b.messages }

-- The trait `StreamingDecoder`: a decoder's state, and what a call changes of it. The batch is
-- what the call returns.
pub record StreamingDecoder (S : Type 0) : Type 0 where
  pub protocol : Bytes
  pub push : S → Direction → Bytes → S × DecodeBatch
  pub finish : S → Direction → S × DecodeBatch

-- `headers.iter().find(|(name, _)| name.eq_ignore_ascii_case(wanted))`, the value
unfoldable pub header_value : Bytes → Headers → Option Bytes
header_value wanted hs = Option.map (λ h. h.1) (find? (λ h. eq_ignore_ascii_case h.0 wanted) hs)
