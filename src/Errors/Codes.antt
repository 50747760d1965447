-- ===== src/Errors/Codes.antt =====
-- Which class an error code stands for, and the round trip of an error through its exception.
use mathlib.Core.Path.{subst}
use text.Mathlib.Text.{◌==◌ as str_eq}
use text.Mathlib.TextEquality.{eq_iff}
use pygls.Prelude.{
  ◌≡◌, ◌≢◌, refl, ap, ◌∙◌, sym, true, false, List, [], ◌∷◌, some, arith, Bool-cases, inl, inr, ◌⊎◌,
}
use pygls.Prelude.Int.{ℤ, pos, negsuc, eq_ℤ, eq_ℤ_iff}
use pygls.Errors.{
  ResponseError, ErrorClass, content_modified, server_not_initialized, unknown_error_code,
  reserved_range_start, reserved_range_end, lsp_range_start, lsp_range_end, json_rpc,
  internal_error, invalid_params, invalid_request, method_not_found, parse_error, request_cancelled,
  server_error, exceptions, supports_code, class_for, from_error, to_response_error, exception,
}

-- One of `_EXCEPTIONS`.
abbrev pub IsListed : ErrorClass → Type 0
IsListed internal_error = Unit
IsListed invalid_params = Unit
IsListed invalid_request = Unit
IsListed method_not_found = Unit
IsListed parse_error = Unit
IsListed request_cancelled = Unit
IsListed server_error = Unit
IsListed _ = ⊥

abbrev pub Among : ErrorClass → List ErrorClass → Type 0
Among c [] = ⊥
Among c (d ∷ ds) = (c ≡ d) ⊎ Among c ds

-- A list of exactly the classes of `_EXCEPTIONS`, in any order.
pub record IsOrder (order : List ErrorClass) : Type 0 where
  pub all : (c : ErrorClass) → IsListed c → Among c order
  pub only : (c : ErrorClass) → Among c order → IsListed c

-- The ranges of the listed classes do not meet.
supports-class_for :
    (c : ErrorClass) (code : ℤ)
    → IsListed c
    → supports_code c code ≡ true
    → class_for exceptions code ≡ c
unfolding class_for
supports-class_for internal_error code h s = rw s refl
supports-class_for invalid_params (negsuc n) h s = ground arith
supports-class_for invalid_request (negsuc n) h s = ground arith
supports-class_for method_not_found (negsuc n) h s = ground arith
supports-class_for parse_error (negsuc n) h s = ground arith
supports-class_for request_cancelled (negsuc n) h s = ground arith
supports-class_for server_error (negsuc n) h s = ground arith
supports-class_for invalid_params (pos n) h s = cc
supports-class_for invalid_request (pos n) h s = cc
supports-class_for method_not_found (pos n) h s = cc
supports-class_for parse_error (pos n) h s = cc
supports-class_for request_cancelled (pos n) h s = cc
supports-class_for server_error (pos n) h s = cc
supports-class_for _ code h s = absurd h

class_for-hit :
    (d : ErrorClass) (ds : List ErrorClass) (code : ℤ)
    → supports_code d code ≡ true
    → class_for (d ∷ ds) code ≡ d
unfolding class_for
class_for-hit d ds code e = ground arith

class_for-miss :
    (d : ErrorClass) (ds : List ErrorClass) (code : ℤ)
    → supports_code d code ≡ false
    → class_for (d ∷ ds) code ≡ class_for ds code
unfolding class_for
class_for-miss d ds code e = ground arith

-- `r` is in the list and supports the code, or it is the default and nothing in the list does.
abbrev Found : List ErrorClass → ℤ → ErrorClass → Type 0
Found order code r =
    ((supports_code r code ≡ true) × Among r order)
    ⊎ ((r ≡ json_rpc) × ((c : ErrorClass) → Among c order → supports_code c code ≡ false))

Found-later :
    (d : ErrorClass) (ds : List ErrorClass) (code : ℤ) (r : ErrorClass)
    → supports_code d code ≡ false
    → Found ds code r
    → Found (d ∷ ds) code r
Found-later d ds code r e (inl (s, m)) = inl (s, inr m)
Found-later d ds code r e (inr (j, no_more)) = inr (j, here_or_later)
  where
    here_or_later : (c : ErrorClass) → Among c (d ∷ ds) → supports_code c code ≡ false
    here_or_later c (inl same) = rw same e
    here_or_later c (inr m) = no_more c m

Found-class_for : (order : List ErrorClass) (code : ℤ) → Found order code (class_for order code)
Found-class_for [] code = inr (unfold class_for in refl, λ c m. absurd m)
Found-class_for (d ∷ ds) code = elim (Bool-cases (supports_code d code)) [
  | inl e ↦ subst (Found (d ∷ ds) code) (sym (class_for-hit d ds code e)) (inl (e, inl refl))
  | inr e ↦
      subst (Found (d ∷ ds) code) (sym (class_for-miss d ds code e))
        (Found-later d ds code (class_for ds code) e (Found-class_for ds code))
]

listed : (c : ErrorClass) → Among c exceptions → IsListed c
listed internal_error m = tt
listed invalid_params m = tt
listed invalid_request m = tt
listed method_not_found m = tt
listed parse_error m = tt
listed request_cancelled m = tt
listed server_error m = tt
listed json_rpc m = ground arith
listed content_modified m = ground arith
listed server_not_initialized m = ground arith
listed unknown_error_code m = ground arith
listed reserved_range_start m = ground arith
listed reserved_range_end m = ground arith
listed lsp_range_start m = ground arith
listed lsp_range_end m = ground arith

-- `_EXCEPTIONS` is iterated over in an order that Python does not fix, and the order does not
-- matter: the exception made for an error from the other side is the same in every order.
pub from_error_order :
    {A : Type 0} (order : List ErrorClass) (error : ResponseError A)
    → IsOrder order
    → from_error order error ≡ from_error exceptions error
unfolding from_error
from_error_order order error o =
    ap (λ c. exception c (some error.message) (some error.code) error.payload)
      (same (Found-class_for order error.code) (Found-class_for exceptions error.code))
  where
    same :
        Found order error.code (class_for order error.code)
        → Found exceptions error.code (class_for exceptions error.code)
        → class_for order error.code ≡ class_for exceptions error.code
    same (inl (s, m)) other =
        sym (supports-class_for (class_for order error.code) error.code (o.only _ m) s)
    same (inr (j, none_fits)) (inr (k, _)) = j ∙ sym k
    same (inr (j, none_fits)) (inl (s, m)) =
        cc (none_fits (class_for exceptions error.code) (o.all _ (listed _ m)), s)

-- An error with a text and a code that is not 0 comes back from its exception unchanged, with the
-- data it carries.
pub to_response_error-from_error :
    {A : Type 0} (order : List ErrorClass) (error : ResponseError A)
    → error.message ≢ ""
    → error.code ≢ pos 0
    → to_response_error (from_error order error) ≡ error
unfolding to_response_error from_error
to_response_error-from_error order error text code =
    let m : str_eq error.message "" ≡ false = ground (arith, eq_iff error.message "") in
    let c : eq_ℤ error.code (pos 0) ≡ false = ground (arith, eq_ℤ_iff error.code (pos 0)) in
    rw (m, c) refl
