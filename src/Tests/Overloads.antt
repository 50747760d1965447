-- ===== src/Tests/Overloads.antt =====
-- The overloads of `get_capability`, at concrete inputs.
use pygls.Prelude.{◌≡◌, refl, inl, inr, true, [], ◌∷◌, none, some}
use mathlib.Core.List.{Memᴰ}
use pygls.Client.{
  Value, atom, items, node, empty, item, end, field, get_capability, reduce_attributes,
}
use pygls.Client.Overloads.{
  Ty, attrs_class, plain, none_type, union, sequence, no_type, either, Attrs, done, attr, Overload,
  write_for, write_overload, HasType, HasAny,
}

abbrev optional : Ty → Ty
optional ty = union (either ty (either none_type no_type))

-- Capabilities with the encodings of positions, and with none.
abbrev general : Attrs
general = attr "position_encodings" (optional (sequence (plain "str"))) done

abbrev attributes : Attrs
attributes = attr "general" (optional (attrs_class "GeneralClientCapabilities" general)) done

abbrev encodings : Value
encodings = items (item (atom "str" true) empty)

abbrev capabilities : Value
capabilities = node (field "general" (node (field "position_encodings" encodings end)) end)

abbrev overload : Overload
overload = record {
  field_name = "general" ∷ "position_encodings" ∷ [];
  results = either (sequence (plain "str")) (either none_type no_type);
}

-- It is one of the overloads, and what `get_capability` returns has its type.
its_overload :
    Memᴰ overload
      (write_for
        (attrs_class "ClientCapabilities" attributes)
        []
        (record { overloads = []; processed = [] })).overloads
unfolding write_for write_overload
its_overload = Memᴰ.tail (Memᴰ.head refl)

of_its_type :
    (get_capability capabilities overload.field_name none ≡ some encodings)
    × HasAny encodings overload.results
unfolding get_capability reduce_attributes HasAny HasType
of_its_type = (refl, inl (_, refl, (refl, tt)))

-- The overload of an attribute that must be a sequence has the type of an element, and the sequence
-- has not.
abbrev token_types : Ty
token_types =
    attrs_class "SemanticTokensClientCapabilities"
      (attr "token_types" (sequence (plain "str")) done)

token_types_overload :
    (write_for token_types [] (record { overloads = []; processed = [] })).overloads
    ≡ record { field_name = "token_types" ∷ []; results = either (plain "str") no_type } ∷ []
unfolding write_for write_overload
token_types_overload = refl

not_of_its_type : HasAny encodings (either (plain "str") no_type) → ⊥
unfolding HasAny
not_of_its_type (inl h) = h
not_of_its_type (inr h) = h
