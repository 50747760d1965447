-- ===== src/Client/Overloads.antt =====
-- The overloads of `get_capability` (pygls/lsp/_capabilities.py), as `write_capability_overloads_for`
-- (scripts/generate_code.py) writes them from the types of the attributes of lsprotocol's classes.
use pygls.Prelude.{
  ◌≡◌, ◌⊎◌, String, Bool, true, false, ◌&&◌, List, [], ◌∷◌, ◌++◌, some, if◌then◌else◌,
}
use text.Mathlib.Text.{◌==◌ as str_eq}
use pygls.Client.{Value, nothing, bool, atom, items, node, Values, empty, item, Fields, attribute}

-- A type: a class with attributes, another class, `NoneType`, a union (also an Optional one), and a
-- sequence.
mutual
  pub data Ty : Type 0 where
    attrs_class : String → Attrs → Ty
    plain : String → Ty
    none_type : Ty
    union : Tys → Ty
    sequence : Ty → Ty

  pub data Tys : Type 0 where
    no_type : Tys
    either : Ty → Tys → Tys

  pub data Attrs : Type 0 where
    done : Attrs
    attr : String → Ty → Attrs → Attrs

-- result_types: what typing.get_args gives for the types of the module typing, or else the type.
abbrev pub result_types : Ty → Tys
result_types (union tys) = tys
result_types (sequence ty) = either ty no_type
result_types ty = either ty no_type

-- The overloads for a field, one with no default and one with a default, have the same types, up to
-- `None`.
pub record Overload : Type 0 where
  pub field_name : List String
  pub results : Tys

pub record Written : Type 0 where
  pub overloads : List Overload
  pub processed : List (List String)

abbrev pub same_path : List String → List String → Bool
same_path [] [] = true
same_path (a ∷ p) (b ∷ q) = str_eq a b && same_path p q
same_path _ _ = false

abbrev pub is_processed : List String → List (List String) → Bool
is_processed path [] = false
is_processed path (p ∷ ps) = if same_path p path then true else is_processed path ps

-- The part of the loop that writes the overloads of one attribute.
unfoldable pub write_overload : List String → Ty → Written → Written
write_overload path ty w = if is_processed path w.processed then w else record {
  overloads = w.overloads ++ record { field_name = path; results = result_types ty } ∷ [];
  processed = path ∷ w.processed;
}

unfoldable mutual
  unfolding write_overload

  pub write_for : Ty → List String → Written → Written
  write_for (attrs_class name attrs) prefix w = write_attrs attrs prefix w
  write_for (plain name) prefix w = w
  write_for none_type prefix w = w
  write_for (union tys) prefix w = w
  write_for (sequence ty) prefix w = w

  -- for field in obj.__attrs_attrs__
  pub write_attrs : Attrs → List String → Written → Written
  write_attrs done prefix w = w
  write_attrs (attr name ty attrs) prefix w =
      write_attrs attrs prefix
        (write_nested ty (prefix ++ name ∷ []) (write_overload (prefix ++ name ∷ []) ty w))

  -- for nested_type in result_types
  pub write_nested : Ty → List String → Written → Written
  write_nested (union tys) path w = write_all tys path w
  write_nested (sequence ty) path w = write_for ty path w
  write_nested (attrs_class name attrs) path w = write_attrs attrs path w
  write_nested (plain name) path w = w
  write_nested none_type path w = w

  pub write_all : Tys → List String → Written → Written
  write_all no_type path w = w
  write_all (either ty tys) path w = write_all tys path (write_for ty path w)

-- isinstance(value, type)
abbrev pub IsPlain : Value → String → Type 0
IsPlain (bool b) name = name ≡ "bool"
IsPlain (atom ty b) name = name ≡ ty
IsPlain _ name = ⊥

abbrev pub AllValues : (Value → Type 0) → Values → Type 0
AllValues P empty = Unit
AllValues P (item v vs) = P v × AllValues P vs

unfoldable mutual
  pub HasType : Value → Ty → Type 0
  HasType v (attrs_class name attrs) = (fs : Fields) × (v ≡ node fs) × HasAttrs fs attrs
  HasType v (plain name) = IsPlain v name
  HasType v none_type = v ≡ nothing
  HasType v (union tys) = HasAny v tys
  HasType v (sequence ty) = (vs : Values) × (v ≡ items vs) × AllValues (λ x. HasType x ty) vs

  pub HasAny : Value → Tys → Type 0
  HasAny v no_type = ⊥
  HasAny v (either ty tys) = HasType v ty ⊎ HasAny v tys

  pub HasAttrs : Fields → Attrs → Type 0
  HasAttrs fs done = Unit
  HasAttrs fs (attr name ty attrs) =
      ((v : Value) × (attribute fs name ≡ some v) × HasType v ty) × HasAttrs fs attrs
