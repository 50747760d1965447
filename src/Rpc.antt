-- ===== src/Rpc.antt =====
-- pygls/protocol/json_rpc.py: the messages of `JsonRPCProtocol` and its state. `A` is the type of
-- Python values that are passed through (params, results, the data of errors).
use pygls.Prelude.{
  ℕ, zero, suc, ◌+◌, String, ◌≡◌, ◌↔◌, refl, Bool, true, false, List, [], ◌∷◌, ◌++◌, Option, none,
  some, arith,
}
use text.Mathlib.Text.{◌==◌ as str_eq}
use text.Mathlib.TextEquality.{eq_iff}
use pygls.Prelude.Eq.{Eq}
use pygls.Prelude.Dict.{Dict}
use pygls.Prelude.Int.{ℤ, eq_ℤ, eq_ℤ_iff}
use pygls.Errors.{JsonRpcException, ResponseError, ErrorClass}
pub mod Values
pub mod Send
pub mod Heap
pub mod Generator
pub mod Handle
pub mod Receive
pub mod Tally
pub mod Runs
pub mod Raises
pub mod Shutdown
pub mod ServerExit
pub mod Dispatch
pub mod OneResponse
pub mod Answers
pub mod Replies

-- MsgId = Union[str, int]
pub data MsgId : Type 0 where
  str : String → MsgId
  int : ℤ → MsgId

abbrev pub eq_id : MsgId → MsgId → Bool
eq_id (str a) (str b) = str_eq a b
eq_id (int a) (int b) = eq_ℤ a b
eq_id (str a) (int b) = false
eq_id (int a) (str b) = false

pub eq_id_iff : (a b : MsgId) → (eq_id a b ≡ true) ↔ (a ≡ b)
eq_id_iff (str a) (str b) = ground (arith, eq_iff a b)
eq_id_iff (int a) (int b) = ground (arith, eq_ℤ_iff a b)
eq_id_iff (str a) (int b) = ground arith
eq_id_iff (int a) (str b) = ground arith

instance abbrev pub id_eq : Eq MsgId
id_eq = record { same = eq_id; same_iff = eq_id_iff }

-- An exception that a handler raises: one of the JSON-RPC exceptions, or any other, with its text.
pub data Raised (A : Type 0) : Type 0 where
  rpc : JsonRpcException A → Raised A
  other : String → Raised A

-- How a future ends.
pub data Settled (A : Type 0) : Type 0 where
  result : A → Settled A
  failed : Raised A → Settled A
  cancelled : Settled A

-- `queued` and `running` are a job's states in the thread pool, `task` is a coroutine's, and
-- `awaiting` that of a future that is settled by hand: of a request of the server's own, which waits
-- for its response, or of a handler that is a generator, which waits for its end.
pub data FutureState (A : Type 0) : Type 0 where
  queued running task awaiting : FutureState A
  settled : Settled A → FutureState A

-- What is called when a future ends: `_send_handler_result` for a request, `_check_handler_result`
-- for a notification, for a request of the server's own the callback of its sender, and for a handler
-- to which a generator has yielded, `_run_generator`: with how often the generator may still yield,
-- its state, and its result future.
pub data Callback : Type 0 where
  respond : MsgId → Callback
  check : Callback
  sender : Callback
  resume : ℕ → ℕ → ℕ → Callback

pub record Future (A : Type 0) : Type 0 where
  pub state : FutureState A
  pub callback : Callback

-- What is sent to the other side.
pub data Message (A : Type 0) : Type 0 where
  response : MsgId → A → Message A
  error_response : MsgId → ResponseError A → Message A
  notification : String → A → Message A
  request : MsgId → String → A → Message A

-- The error class with which `_report_server_error` is called.
pub data Source : Type 0 where
  feature_request feature_notification internal rpc_exception : Source

-- `futures` is the heap of the future objects, by which `request_futures` refers to them. `sent` is
-- what the writer was given, and `reports` the calls of the server's `report_server_error`, with their source, oldest first: what it does
-- (a `LanguageServer` may show the client a message) is up to the server.
-- `uuids` counts the calls of `uuid.uuid4`.
pub record Protocol (A : Type 0) : Type 0 where
  pub shutdown : Bool
  pub request_futures : Dict MsgId ℕ
  pub result_types : Dict MsgId (Option String)
  pub futures : List (Future A)
  pub has_writer : Bool
  pub sent : List (Message A)
  pub reports : List Source
  pub uuids : ℕ

-- How the call of a handler ends.
pub data Done (A : Type 0) : Type 0 where
  returned : A → Done A
  raised : Raised A → Done A

-- A handler by its kind. A synchronous one runs at once, and may use the protocol; what the others
-- do until they end comes as events of its own.
pub data Handler (A : Type 0) : Type 0 where
  sync : (A → Protocol A → Done A × Protocol A) → Handler A
  coroutine thread : Handler A

-- What a generator does when it is run on: it yields to a handler with its arguments, and has a new
-- state, or it stops, with its value or with an exception.
pub data Turn (A : Type 0) : Type 0 where
  yields : Handler A → A → ℕ → Turn A
  stops : Done A → Turn A

-- What is registered for a method: a handler, or a generator, by how often it yields at most and by
-- its state at the start. Generators yield to handlers that are no generators.
pub data Feature (A : Type 0) : Type 0 where
  plain : Handler A → Feature A
  generator : ℕ → (A → ℕ) → Feature A

-- A message that has been received and structured.
pub data Incoming (A : Type 0) : Type 0 where
  in_request : MsgId → String → A → Incoming A
  in_notification : String → A → Incoming A
  in_response : MsgId → A → Incoming A
  in_error : MsgId → ResponseError A → Incoming A
