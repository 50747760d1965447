-- ===== src/Errors.antt =====
-- pygls/exceptions.py: the JSON-RPC exceptions. `A` is the type of the data that an error carries.
use Prim.Native.String.{◌++◌}
use text.Mathlib.Text.{◌==◌ as str_eq}
use pygls.Prelude.{
  ℕ, String, Bool, true, false, ◌&&◌, List, [], ◌∷◌, Option, none, some, if◌then◌else◌,
}
use pygls.Prelude.Int.{ℤ, pos, negsuc, neg, leb_ℤ, eq_ℤ}
pub mod Codes

-- lsprotocol's ResponseError
pub record ResponseError (A : Type 0) : Type 0 where
  pub code : ℤ
  pub message : String
  pub payload : Option A

-- `JsonRpcException` itself is `json_rpc`.
pub data ErrorClass : Type 0 where
  json_rpc internal_error invalid_params invalid_request method_not_found parse_error : ErrorClass
  request_cancelled content_modified server_not_initialized unknown_error_code : ErrorClass
  reserved_range_start reserved_range_end lsp_range_start lsp_range_end server_error : ErrorClass

-- CODE; `JsonRpcServerError` inherits it.
unfoldable pub class_code : ErrorClass → ℤ
class_code json_rpc = neg 32603
class_code internal_error = neg 32603
class_code invalid_params = neg 32602
class_code invalid_request = neg 32600
class_code method_not_found = neg 32601
class_code parse_error = neg 32700
class_code request_cancelled = neg 32800
class_code content_modified = neg 32801
class_code server_not_initialized = neg 32002
class_code unknown_error_code = neg 32001
class_code reserved_range_start = neg 32099
class_code reserved_range_end = neg 32000
class_code lsp_range_start = neg 32899
class_code lsp_range_end = neg 32800
class_code server_error = neg 32603

-- MESSAGE
unfoldable pub class_message : ErrorClass → String
class_message json_rpc = ""
class_message internal_error = "Internal Error"
class_message invalid_params = "Invalid Params"
class_message invalid_request = "Invalid Request"
class_message method_not_found = "Method Not Found"
class_message parse_error = "Parse Error"
class_message request_cancelled = "Request Cancelled"
class_message content_modified = "Content Modified"
class_message server_not_initialized = "ServerNotInitialized"
class_message unknown_error_code = "UnknownErrorCode"
class_message reserved_range_start = "jsonrpcReservedErrorRangeStart"
class_message reserved_range_end = "jsonrpcReservedErrorRangeEnd"
class_message lsp_range_start = "lspReservedErrorRangeStart"
class_message lsp_range_end = "lspReservedErrorRangeEnd"
class_message server_error = ""

pub record JsonRpcException (A : Type 0) : Type 0 where
  pub error_class : ErrorClass
  pub message : String
  pub code : ℤ
  pub payload : Option A

-- `message or self.MESSAGE` and `code or self.CODE`: the empty text and 0 count as missing.
unfoldable pub message_or : Option String → String → String
message_or none default = default
message_or (some m) default = if str_eq m "" then default else m

unfoldable pub code_or : Option ℤ → ℤ → ℤ
code_or none default = default
code_or (some c) default = if eq_ℤ c (pos 0) then default else c

module _ {A : Type 0} where
  -- JsonRpcException.__init__
  unfoldable pub exception : ErrorClass → Option String → Option ℤ → Option A → JsonRpcException A
  unfolding message_or code_or class_code class_message
  exception cls message code payload = record {
    error_class = cls;
    message = message_or message (class_message cls);
    code = code_or code (class_code cls);
    payload = payload;
  }

  -- The `of` of most classes; `text` is `str(exc)`.
  unfoldable pub of : ErrorClass → String → JsonRpcException A
  unfolding exception
  of cls text = exception cls (some (class_message cls ++ (": " ++ text))) none none

  unfoldable pub to_response_error : JsonRpcException A → ResponseError A
  to_response_error exc = record { code = exc.code; message = exc.message; payload = exc.payload }

unfoldable pub is_server_error_code : ℤ → Bool
is_server_error_code code = leb_ℤ (neg 32099) code && leb_ℤ code (neg 32000)

-- The class method `supports_code`.
unfoldable pub supports_code : ErrorClass → ℤ → Bool
unfolding is_server_error_code class_code
supports_code server_error code = is_server_error_code code
supports_code cls code = eq_ℤ (class_code cls) code

-- `_EXCEPTIONS` is a set, which Python iterates over in no order that the source fixes.
abbrev pub exceptions : List ErrorClass
exceptions =
    internal_error ∷ invalid_params ∷ invalid_request ∷ method_not_found ∷ parse_error
    ∷ request_cancelled ∷ server_error ∷ []

-- The class that the loop of `from_error` stops at, over the classes in some order. The
-- constructor of `JsonRpcServerError` raises where the code is not in its range, which
-- `supports_code` has just ruled out.
unfoldable pub class_for : List ErrorClass → ℤ → ErrorClass
unfolding supports_code
class_for [] code = json_rpc
class_for (cls ∷ rest) code = if supports_code cls code then cls else class_for rest code

unfoldable pub from_error : {A : Type 0} → List ErrorClass → ResponseError A → JsonRpcException A
unfolding class_for exception
from_error order error =
    exception (class_for order error.code) (some error.message) (some error.code) error.payload
