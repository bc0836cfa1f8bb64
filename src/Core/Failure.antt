-- ===== src/Core/Failure.antt =====
-- crates/lens-core/src/lib.rs: `CoreError` and its classes.
use lens.Prelude.{◌++◌}
use lens.Text.{Bytes, str}

pub data ErrorClass : Type 0 where
  user operational internal : ErrorClass

pub error_class_text : ErrorClass → Bytes
error_class_text user = str "user"
error_class_text operational = str "operational"
error_class_text internal = str "internal"

pub data CoreError : Type 0 where
  invalid_argument : Bytes → Bytes → Bytes → CoreError
  not_found : Bytes → Bytes → CoreError
  operation_failed : Bytes → Bytes → CoreError
  invariant : Bytes → CoreError

pub class : CoreError → ErrorClass
class (invalid_argument _ _ _) = user
class (not_found _ _) = operational
class (operation_failed _ _) = operational
class (invariant _) = internal

pub core_error_text : CoreError → Bytes
core_error_text (invalid_argument name value expected) =
    str "invalid argument `"
    ++ (name ++ (str "`: got `" ++ (value ++ (str "`, expected " ++ expected))))
core_error_text (not_found kind id) = kind ++ (str " not found: " ++ id)
core_error_text (operation_failed operation cause) = operation ++ (str " failed: " ++ cause)
core_error_text (invariant message) = str "invariant violated: " ++ message
