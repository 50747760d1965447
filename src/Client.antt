-- ===== src/Client.antt =====
-- The client's capabilities: lsprotocol's object as the tree of its attributes, with
-- `get_capability` (pygls/lsp/_capabilities.py), and the choice of the position encoding
-- (`ServerCapabilitiesBuilder.choose_position_encoding`, pygls/capabilities.py).
use pygls.Prelude.{String, Bool, true, false, List, [], ◌∷◌, Option, none, some, if◌then◌else◌}
use text.Mathlib.Text.{◌==◌ as str_eq}
use pygls.Codec.{Encoding, utf8, utf16, utf32}
pub mod Laws
pub mod Overloads

-- `nothing` is `None`. An `atom` is a value of another type without attributes, by the name of the
-- type and by its truth value, and `items` a sequence.
mutual
  pub data Value : Type 0 where
    nothing : Value
    bool : Bool → Value
    atom : String → Bool → Value
    items : Values → Value
    node : Fields → Value

  pub data Values : Type 0 where
    empty : Values
    item : Value → Values → Values

  pub data Fields : Type 0 where
    end : Fields
    field : String → Value → Fields → Fields

unfoldable pub attribute : Fields → String → Option Value
attribute end name = none
attribute (field n v fs) name = if str_eq n name then some v else attribute fs name

-- getattr(value, name); `none` is an AttributeError.
unfoldable pub get_attribute : Value → String → Option Value
unfolding attribute
get_attribute (node fs) name = attribute fs name
get_attribute _ name = none

-- reduce(getattr, field.split("."), capabilities), over the split field
unfoldable pub reduce_attributes : List String → Option Value → Option Value
unfolding get_attribute
reduce_attributes [] value = value
reduce_attributes (name ∷ names) none = none
reduce_attributes (name ∷ names) (some v) = reduce_attributes names (get_attribute v name)

abbrev pub or_default : Option Value → Option Value → Option Value
or_default none default = default
or_default (some nothing) default = default
or_default (some v) default = some v

unfoldable pub get_capability : Value → List String → Option Value → Option Value
unfolding reduce_attributes
get_capability capabilities field_names default =
    or_default (reduce_attributes field_names (some capabilities)) default

-- The truth value of a capability.
abbrev pub is_true : Option Value → Bool
is_true none = false
is_true (some nothing) = false
is_true (some (bool b)) = b
is_true (some (node fs)) = true
is_true (some (atom ty b)) = b
is_true (some (items empty)) = false
is_true (some (items (item v vs))) = true

-- capability and feature in self.features
abbrev pub and_feature : Option Value → Bool → Option Value
and_feature capability registered =
    if is_true capability then some (bool registered) else capability

-- client_capabilities.name is None
unfoldable pub missing : Value → String → Bool
unfolding get_attribute
missing capabilities name = elim (get_attribute capabilities name) [
  | some nothing ↦ true
  | none ↦ true
  | _ ↦ false
]

-- `_SUPPORTED_ENCODINGS`; PositionEncodingKind is an enumeration of strings.
unfoldable pub supported_encoding : String → Option Encoding
supported_encoding name =
    if str_eq name "utf-8"
    then some utf8
    else if str_eq name "utf-16"
    then some utf16
    else if str_eq name "utf-32"
    then some utf32
    else none

-- The loop over the client's encodings.
unfoldable pub first_supported : List String → Encoding
first_supported [] = utf16
first_supported (e ∷ es) = elim (supported_encoding e) [
  | some encoding ↦ encoding
  | none ↦ first_supported es
]

-- `client_capabilities.general`, and its `position_encodings`, may be `None`.
unfoldable pub choose_position_encoding : Option (Option (List String)) → Encoding
unfolding first_supported
choose_position_encoding none = utf16
choose_position_encoding (some none) = utf16
choose_position_encoding (some (some encodings)) = first_supported encodings
