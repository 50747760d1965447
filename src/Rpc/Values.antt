-- ===== src/Rpc/Values.antt =====
-- What `json.loads` makes of a text with `structure_message` as its `object_hook`
-- (pygls/protocol/json_rpc.py): in the place of an object there may stand a message.
use pygls.Prelude.{String, Option, none, some}
use text.Mathlib.Text.{◌==◌ as str_eq}
use pygls.Prelude.{if◌then◌else◌}
use pygls.Prelude.Int.{ℤ}
use pygls.Errors.{ErrorClass}
use pygls.Rpc.{Incoming}

-- `scalar` is a number with a fraction, a Boolean or null; a structured message has its version.
mutual
  pub data Value (A : Type 0) : Type 0 where
    string : String → Value A
    number : ℤ → Value A
    scalar : A → Value A
    array : Items A → Value A
    object : Fields A → Value A
    structured : String → Incoming A → Value A

  pub data Items (A : Type 0) : Type 0 where
    nil : Items A
    cons : Value A → Items A → Items A

  pub data Fields (A : Type 0) : Type 0 where
    end : Fields A
    field : String → Value A → Fields A → Fields A

-- data.get(name)
abbrev pub get_field : {A : Type 0} → String → Fields A → Option (Value A)
get_field name end = none
get_field name (field k v fs) = if str_eq k name then some v else get_field name fs

-- The class to which a message is converted: that of errors, or the one given for requests, responses
-- and notifications, or where none is given, the generic one.
pub data Shape : Type 0 where
  error_shape : Shape
  request_shape response_shape notification_shape : Option String → Shape

-- How a conversion ends: with a message and its version, with a ClassValidationError, or with another
-- exception.
pub data Converted (A : Type 0) : Type 0 where
  fits : String → Incoming A → Converted A
  misfit breaks : Converted A

-- What is loaded, or the class of the exception that is raised.
pub data Load (T : Type 0) : Type 0 where
  loads : T → Load T
  fails : ErrorClass → Load T
