-- ===== src/Client/Laws.antt =====
-- The position encoding that is agreed on.
use pygls.Prelude.{String, ◌≡◌, refl, inl, inr, List, [], ◌∷◌, none, some, Option-cases}
use pygls.Codec.{Encoding, utf16}
use pygls.Client.{supported_encoding, first_supported, choose_position_encoding}

-- None of the names is of a supported encoding.
abbrev pub NoneSupported : List String → Type 0
NoneSupported [] = Unit
NoneSupported (e ∷ es) = (supported_encoding e ≡ none) × NoneSupported es

-- The encoding is that of the first supported name, or none is supported and it is UTF-16.
pub data IsFirst (encoding : Encoding) : List String → Type 0 where
  unsupported : (es : List String) → NoneSupported es → encoding ≡ utf16 → IsFirst encoding es
  first :
      (e : String) (es : List String)
      → supported_encoding e ≡ some encoding
      → IsFirst encoding (e ∷ es)
  later :
      (e : String) (es : List String)
      → supported_encoding e ≡ none
      → IsFirst encoding es
      → IsFirst encoding (e ∷ es)

first_supported-IsFirst : (es : List String) → IsFirst (first_supported es) es
unfolding first_supported
first_supported-IsFirst [] = unsupported [] tt refl
first_supported-IsFirst (e ∷ es) = elim (Option-cases (supported_encoding e)) [
  | inl none_ ↦ rw (none_, first_supported) (later e es none_ (first_supported-IsFirst es))
  | inr (encoding, found) ↦ rw (found, first_supported) (first e es found)
]

-- Whatever encodings the client lists, in its order of preference, the server chooses the first that
-- it supports, and UTF-16 if it supports none or the client lists none at all.
pub choose_position_encoding-IsFirst :
    (encodings : List String)
    → IsFirst (choose_position_encoding (some (some encodings))) encodings
      × (choose_position_encoding (some none) ≡ utf16)
      × (choose_position_encoding none ≡ utf16)
unfolding choose_position_encoding
choose_position_encoding-IsFirst encodings = (first_supported-IsFirst encodings, refl, refl)
