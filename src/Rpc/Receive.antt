-- ===== src/Rpc/Receive.antt =====
-- pygls/protocol/json_rpc.py: `structure_message`, and pygls/io_.py: what the loops do with a body.
use pygls.Prelude.{ℕ, String, Bool, true, false, List, Option, none, some, if◌then◌else◌}
use pygls.Prelude.Dict
use pygls.Errors.{ErrorClass, invalid_params, internal_error}
use pygls.Rpc.{MsgId, str, int, id_eq, rpc_exception, Protocol}
use pygls.Rpc.Values.{
  Value, string, number, scalar, array, object, structured, Items, nil, cons, Fields, end, field,
  get_field, Shape, error_shape, request_shape, response_shape, notification_shape, Converted, fits,
  misfit, breaks, Load, loads, fails,
}
use pygls.Rpc.Send.{Env, report}
use pygls.Rpc.Handle.{handle_message}
pub mod Kept

-- A value as a key of a dict: equal to an id, to none, or not hashable.
pub data Key : Type 0 where
  key : MsgId → Key
  no_id unhashable : Key

abbrev pub popped_type : Option (Option String) → Option String
popped_type none = none
popped_type (some ty) = ty

abbrev pub value_or : {A : Type 0} → Value A → Option (Value A) → Value A
value_or default none = default
value_or default (some v) = v

module _ {A : Type 0} (env : Env A) where
  abbrev pub key_or : Option MsgId → Key
  key_or (some i) = key i
  key_or none = no_id

  abbrev pub key_of : Value A → Key
  key_of (string s) = key (str s)
  key_of (number n) = key (int n)
  key_of (scalar a) = key_or (env.equal_id a)
  key_of _ = unhashable

  -- self.get_message_type(method): a TypeError, which is `none`, for what is not hashable.
  abbrev pub get_message_type : Value A → Option (Option String)
  get_message_type (string s) = some (env.message_type s)
  get_message_type (number n) = some none
  get_message_type (scalar a) = some none
  get_message_type _ = none

  -- The `except` clauses of `structure_message`.
  unfoldable pub converted : Converted A → Load (Value A)
  converted (fits version message) = loads (structured version message)
  converted misfit = fails invalid_params
  converted breaks = fails internal_error

  unfoldable pub structure_as :
      (Option String → Shape) → Option (Option String) → Fields A → Load (Value A)
  unfolding converted
  structure_as shape none obj = fails internal_error
  structure_as shape (some ty) obj = converted (env.convert (shape ty) obj)

  -- self._result_types.pop(id, None) or JsonRPCResponseMessage
  unfoldable pub structure_response : Key → Fields A → Protocol A → Load (Value A) × Protocol A
  unfolding structure_as
  structure_response unhashable obj p = (fails internal_error, p)
  structure_response no_id obj p = (structure_as response_shape (some none) obj, p)
  structure_response (key i) obj p = (
    structure_as response_shape (some (popped_type (Dict.get p.result_types i))) obj,
    record p { result_types = Dict.remove p.result_types i },
  )

  -- The message has an id, and no error.
  unfoldable pub structure_call :
      Value A → Option (Value A) → Fields A → Protocol A → Load (Value A) × Protocol A
  unfolding structure_response structure_as
  structure_call msg_id (some method) obj p =
      (structure_as request_shape (get_message_type method) obj, p)
  structure_call msg_id none obj p = structure_response (key_of msg_id) obj p

  unfoldable pub structure_with_id :
      Value A → Option (Value A) → Fields A → Protocol A → Load (Value A) × Protocol A
  unfolding structure_call converted
  structure_with_id msg_id (some error) obj p = (converted (env.convert error_shape obj), p)
  structure_with_id msg_id none obj p = structure_call msg_id (get_field "method" obj) obj p

  unfoldable pub structure_any :
      Option (Value A) → Fields A → Protocol A → Load (Value A) × Protocol A
  unfolding structure_with_id structure_as
  structure_any (some msg_id) obj p = structure_with_id msg_id (get_field "error" obj) obj p
  structure_any none obj p = (
    structure_as notification_shape
        (get_message_type (value_or (string "") (get_field "method" obj))) obj,
    p,
  )

  unfoldable pub structure_tested :
      Option (Value A) → Fields A → Protocol A → Load (Value A) × Protocol A
  unfolding structure_any
  structure_tested none obj p = (loads (object obj), p)
  structure_tested (some version) obj p = structure_any (get_field "id" obj) obj p

  unfoldable pub structure_message : Fields A → Protocol A → Load (Value A) × Protocol A
  unfolding structure_tested
  structure_message obj p = structure_tested (get_field "jsonrpc" obj) obj p

  -- The object hook is called for every object, the inner ones first; an exception of it ends the
  -- loading.
  unfoldable pub hooked : Load (Fields A) × Protocol A → Load (Value A) × Protocol A
  unfolding structure_message
  hooked (fails e, p) = (fails e, p)
  hooked (loads obj, p) = structure_message obj p

  unfoldable pub listed : Load (Items A) × Protocol A → Load (Value A) × Protocol A
  listed (fails e, p) = (fails e, p)
  listed (loads items, p) = (loads (array items), p)

  unfoldable pub cons_after : Value A → Load (Items A) × Protocol A → Load (Items A) × Protocol A
  cons_after v (fails e, p) = (fails e, p)
  cons_after v (loads items, p) = (loads (cons v items), p)

  unfoldable pub then_items :
      (Protocol A → Load (Items A) × Protocol A)
      → Load (Value A) × Protocol A
      → Load (Items A) × Protocol A
  unfolding cons_after
  then_items rest (fails e, p) = (fails e, p)
  then_items rest (loads v, p) = cons_after v (rest p)

  unfoldable pub field_after :
      String → Value A → Load (Fields A) × Protocol A → Load (Fields A) × Protocol A
  field_after k v (fails e, p) = (fails e, p)
  field_after k v (loads obj, p) = (loads (field k v obj), p)

  unfoldable pub then_fields :
      String
      → (Protocol A → Load (Fields A) × Protocol A)
      → Load (Value A) × Protocol A
      → Load (Fields A) × Protocol A
  unfolding field_after
  then_fields k rest (fails e, p) = (fails e, p)
  then_fields k rest (loads v, p) = field_after k v (rest p)

  unfoldable mutual
    unfolding hooked listed then_items then_fields

    pub decode : Value A → Protocol A → Load (Value A) × Protocol A
    decode (array items) p = listed (decode_items items p)
    decode (object obj) p = hooked (decode_fields obj p)
    decode (string s) p = (loads (string s), p)
    decode (number n) p = (loads (number n), p)
    decode (scalar a) p = (loads (scalar a), p)
    decode (structured version message) p = (loads (structured version message), p)

    pub decode_items : Items A → Protocol A → Load (Items A) × Protocol A
    decode_items nil p = (loads nil, p)
    decode_items (cons v items) p = then_items (λ q. decode_items items q) (decode v p)

    pub decode_fields : Fields A → Protocol A → Load (Fields A) × Protocol A
    decode_fields end p = (loads end, p)
    decode_fields (field k v obj) p = then_fields k (λ q. decode_fields obj q) (decode v p)

  -- What is loaded is handled if it is a message; for another value an AttributeError is raised. For what
  -- is raised the error handler of the loop is called, which is `report_server_error`; the answer is then
  -- `false`.
  unfoldable pub handle_loaded : Load (Value A) × Protocol A → Bool × Protocol A
  handle_loaded (loads (structured version message), p) =
      (true, handle_message env version message p)
  handle_loaded (_, p) = (false, report rpc_exception p)

  unfoldable pub receive_value : Option (Value A) → Protocol A → Bool × Protocol A
  unfolding decode handle_loaded
  receive_value none p = (false, report rpc_exception p)
  receive_value (some v) p = handle_loaded (decode v p)

  -- The `try` in the loops, with its `except`.
  unfoldable pub receive : List ℕ → Protocol A → Bool × Protocol A
  unfolding receive_value
  receive body p = receive_value (env.parse body) p
