-- ===== src/Framing/Decimal.antt =====
-- The decimal number that `_send_data` writes is the one that the pattern of `run` reads.
use pygls.Prelude.{
  ℕ, zero, suc, ◌+◌, ◌-◌, ◌*◌, ◌≤◌, ◌<◌, ◌≡◌, ◌≢◌, refl, ap, ◌∙◌, Bool, true, false, [], ◌∷◌, ◌++◌,
  some, arith, ltb, Bool-cases, inl, inr, ltb→lt, ltb→le,
}
use Prim.Native.Nat.{◌/◌, ◌%◌}
use pygls.Framing.{Bytes, digits_fuel, decimal, length_field}

abbrev pub NoLf : Bytes → Type 0
NoLf [] = Unit
NoLf (c ∷ cs) = (c ≢ 10) × NoLf cs

length_field-digit :
    (n d : ℕ) (seen : Bool) (cs : Bytes)
    → d < 10
    → length_field n seen ((b'0' + d) ∷ cs) ≡ length_field (n * 10 + d) true cs
unfolding length_field
length_field-digit n d seen cs h =
    let e : b'0' + d - b'0' ≡ d = omega arith in
    ground (arith, ap (λ k. length_field (n * 10 + k) true cs) e)

length_field-digits :
    (f n : ℕ) (seen : Bool) (rest : Bytes)
    → n < f
    → length_field 0 seen (digits_fuel f n rest) ≡ length_field n true rest
unfolding digits_fuel
length_field-digits zero n seen rest h = absurd (omega arith)
length_field-digits (suc f) n seen rest h = elim (Bool-cases (ltb n 10)) [
  | inl small ↦
      let only : 0 * 10 + n ≡ n = omega arith in
      rw small (
        length_field-digit 0 n seen rest (ltb→lt n 10 small)
        ∙ ap (λ k. length_field k true rest) only)
  | inr large ↦
      let big : 10 ≤ n = ltb→le n 10 large in
      let whole : n / 10 * 10 + n % 10 ≡ n = omega arith in
      rw large (
        length_field-digits f (n / 10) seen ((b'0' + n % 10) ∷ rest) (omega arith)
        ∙ length_field-digit (n / 10) (n % 10) true rest (omega arith)
        ∙ ap (λ k. length_field k true rest) whole)
]

digits-append :
    (f n : ℕ) (rest more : Bytes) → digits_fuel f n rest ++ more ≡ digits_fuel f n (rest ++ more)
unfolding digits_fuel
digits-append zero n rest more = refl
digits-append (suc f) n rest more =
    ground (arith, digits-append f (n / 10) ((b'0' + n % 10) ∷ rest) more)

NoLf-digits : (f n : ℕ) (rest : Bytes) → NoLf rest → NoLf (digits_fuel f n rest)
unfolding digits_fuel
NoLf-digits zero n rest h = h
NoLf-digits (suc f) n rest h = elim (Bool-cases (ltb n 10)) [
  | inl small ↦ rw small (omega arith, h)
  | inr large ↦ rw large (NoLf-digits f (n / 10) ((b'0' + n % 10) ∷ rest) (omega arith, h))
]

-- What is read after the decimal number `n` and a line ending is `n`.
pub length_field-decimal : (n : ℕ) → length_field 0 false (decimal n ++ 13 ∷ 10 ∷ []) ≡ some n
unfolding decimal length_field
length_field-decimal n =
    ap (length_field 0 false) (digits-append (suc n) n [] (13 ∷ 10 ∷ []))
    ∙ length_field-digits (suc n) n false (13 ∷ 10 ∷ []) (omega arith)

pub NoLf-decimal : (n : ℕ) → NoLf (decimal n)
unfolding decimal
NoLf-decimal n = NoLf-digits (suc n) n [] tt
