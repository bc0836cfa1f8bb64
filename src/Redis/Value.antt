-- ===== src/Redis/Value.antt =====
-- crates/lens-proto-redis/src/lib.rs: `RespValue` and `Parse`.
use lens.Prelude.{ℕ, suc, Bool, List, [], ◌∷◌, Option, ◌≡◌, refl, ◌⊎◌, inl, inr}
use lens.Text.{Bytes}

-- `Array(None)` is `array_null`. The `Vec<RespValue>` of the source is `Values`.
mutual
  pub data RespValue : Type 0 where
    simple : Bytes → RespValue
    error : Bytes → RespValue
    integer : Bytes → RespValue
    bulk : Option Bytes → RespValue
    array : Values → RespValue
    array_null : RespValue
    null : RespValue
    boolean : Bool → RespValue
    double : Bytes → RespValue
    big_number : Bytes → RespValue
    bulk_error : Bytes → RespValue
    verbatim : Bytes → RespValue
    map : Values → RespValue
    set : Values → RespValue
    push : Values → RespValue
    attribute : Values → RespValue
    inline : List Bytes → RespValue

  pub data Values : Type 0 where
    nil : Values
    cons : RespValue → Values → Values

abbrev pub to_list : Values → List RespValue
to_list nil = []
to_list (cons v vs) = v ∷ to_list vs

abbrev pub count : Values → ℕ
count nil = 0
count (cons v vs) = suc (count vs)

pub data Parse : Type 0 where
  complete : RespValue → ℕ → Parse
  incomplete : Parse
  invalid : Bytes → Parse

-- The outcome of the loop of `parse_aggregate`: the values, and the bytes consumed in all.
pub data ParseItems : Type 0 where
  complete : Values → ℕ → ParseItems
  incomplete : ParseItems
  invalid : Bytes → ParseItems

-- To split on a computed outcome and keep the equation.
pub Parse-cases :
    (p : Parse)
    → ((v : RespValue) × (n : ℕ) × (p ≡ Parse.complete v n))
      ⊎ (p ≡ Parse.incomplete)
      ⊎ ((r : Bytes) × (p ≡ Parse.invalid r))
Parse-cases (Parse.complete v n) = inl (v, n, refl)
Parse-cases Parse.incomplete = inr (inl refl)
Parse-cases (Parse.invalid r) = inr (inr (r, refl))
