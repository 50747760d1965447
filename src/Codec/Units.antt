-- ===== src/Codec/Units.antt =====
-- The length of a text in the client's code units: a sum over its characters, with bounds.
use pygls.Prelude.{ℕ, ◌+◌, ◌*◌, ◌≤◌, ◌≡◌, refl, [], ◌∷◌, ◌++◌, arith, length}
use pygls.Codec.{
  Text, Encoding, utf8, utf16, utf32, other, utf16_unit_offset, utf8_bytes, sum_utf8_bytes,
  client_num_units, char_units,
}

-- The encodings that the server can agree on with a client.
abbrev pub IsKnown : Encoding → Type 0
IsKnown other = ⊥
IsKnown _ = Unit

abbrev pub units : Encoding → Text → ℕ
units enc [] = 0
units enc (c ∷ cs) = char_units enc c + units enc cs

pub units-append :
    (enc : Encoding) (xs ys : Text) → units enc (xs ++ ys) ≡ units enc xs + units enc ys
units-append enc [] ys = omega arith
units-append enc (x ∷ xs) ys = omega (arith, units-append enc xs ys)

pub char_units_bounds : (enc : Encoding) (c : ℕ) → (1 ≤ char_units enc c) × (char_units enc c ≤ 4)
unfolding char_units utf8_bytes
char_units_bounds utf8 c = ground arith
char_units_bounds utf16 c = ground arith
char_units_bounds utf32 c = omega arith
char_units_bounds other c = omega arith

pub length-le-units : (enc : Encoding) (cs : Text) → length cs ≤ units enc cs
length-le-units enc [] = omega arith
length-le-units enc (c ∷ cs) = omega (arith, length-le-units enc cs, (char_units_bounds enc c).0)

-- For an encoding that the protocol names, the length that `client_num_units` computes is the sum
-- of what the loop of `position_from_client_units` counts for each character.
pub client_num_units-eq-units :
    (enc : Encoding) (cs : Text) → IsKnown enc → client_num_units enc cs ≡ units enc cs
unfolding client_num_units char_units sum_utf8_bytes utf16_unit_offset
client_num_units-eq-units utf8 [] k = refl
client_num_units-eq-units utf8 (c ∷ cs) k = omega (arith, client_num_units-eq-units utf8 cs k)
client_num_units-eq-units utf16 [] k = refl
client_num_units-eq-units utf16 (c ∷ cs) k = ground (arith, client_num_units-eq-units utf16 cs k)
client_num_units-eq-units utf32 [] k = refl
client_num_units-eq-units utf32 (c ∷ cs) k = omega (arith, client_num_units-eq-units utf32 cs k)
client_num_units-eq-units other cs k = absurd k

pub units-le : (enc : Encoding) (cs : Text) → units enc cs ≤ 4 * length cs
units-le enc [] = omega arith
units-le enc (c ∷ cs) = omega (arith, units-le enc cs, (char_units_bounds enc c).1)
