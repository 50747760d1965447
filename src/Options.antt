-- ===== src/Options.antt =====
-- pygls/lsp/__init__.py: the type that the options of a method have, over lsprotocol's tables, and the
-- check of options. A name is the list of its code points.
use pygls.Prelude.{
  ℕ, zero, suc, String, Bool, true, false, ◌&&◌, List, [], ◌∷◌, Option, none, some, ◌==◌,
  if◌then◌else◌, length,
}

abbrev pub Name : Type 0
Name = List ℕ

-- `O` is the type of options, `T` that of the types in the tables: METHOD_TO_OPTIONS, the fourth entry of
-- METHOD_TO_TYPES, where `none` is a missing method, ALL_TYPES_MAP, and the names of types. `unstructures` says
-- that `cv.unstructure(o, t)` raises no TypeError.
pub record LspTypes (O T : Type 0) : Type 0 where
  pub options_map : String → Option T
  pub methods_map : String → Option (Option T)
  pub all_types : Name → Option T
  pub name_of : T → Name
  pub unstructures : O → T → Bool

-- "Registration", without its first letter
abbrev pub egistration : Name
egistration = 101 ∷ 103 ∷ 105 ∷ 115 ∷ 116 ∷ 114 ∷ 97 ∷ 116 ∷ 105 ∷ 111 ∷ 110 ∷ []

abbrev pub starts_with : Name → Name → Bool
starts_with [] s = true
starts_with (w ∷ ws) [] = false
starts_with (w ∷ ws) (c ∷ cs) = w == c && starts_with ws cs

-- s.replace(w ∷ ws, ""), after `skip` characters of an occurrence
unfoldable pub removed : ℕ → Name → ℕ → Name → Name
removed w ws skip [] = []
removed w ws (suc skip) (c ∷ cs) = removed w ws skip cs
removed w ws zero (c ∷ cs) =
    let cut = removed w ws (length ws) cs in
    let on = removed w ws zero cs in if starts_with (w ∷ ws) (c ∷ cs) then cut else c ∷ on

-- The type of the options, which may be missing, or a MethodTypeNotRegisteredError.
pub data Lookup (T : Type 0) : Type 0 where
  found : Option T → Lookup T
  not_registered : Lookup T

pub data Check : Type 0 where
  accepted ill_typed unknown_method : Check

module _ {O T : Type 0} (types : LspTypes O T) where
  abbrev pub get_method_registration_options_type : String → Lookup T
  get_method_registration_options_type method_name = elim (types.methods_map method_name) [
    | none ↦ not_registered
    | some ty ↦ found ty
  ]

  abbrev pub of_name : Option T → Lookup T
  of_name none = not_registered
  of_name (some ty) = found (some ty)

  -- The type `FooOptions` of a method with the registration type `FooRegistrationOptions`.
  unfoldable pub from_registration : Lookup T → Lookup T
  unfolding removed
  from_registration not_registered = not_registered
  from_registration (found none) = found none
  from_registration (found (some ty)) =
      of_name (types.all_types (removed 82 egistration 0 (types.name_of ty)))

  unfoldable pub options_or : Option T → String → Lookup T
  unfolding from_registration
  options_or (some ty) method_name = found (some ty)
  options_or none method_name = from_registration (get_method_registration_options_type method_name)

  unfoldable pub get_method_options_type : String → Lookup T
  unfolding options_or
  get_method_options_type method_name = options_or (types.options_map method_name) method_name

  abbrev pub is_instance : O → T → Bool
  is_instance o ty = types.unstructures o ty

  unfoldable pub check_type : Lookup T → O → Check
  check_type not_registered o = unknown_method
  check_type (found none) o = accepted
  check_type (found (some ty)) o = if is_instance o ty then accepted else ill_typed

  -- The options of a feature, as the decorator checks them.
  unfoldable pub check_options : String → O → Check
  unfolding check_type get_method_options_type
  check_options feature_name o = check_type (get_method_options_type feature_name) o
