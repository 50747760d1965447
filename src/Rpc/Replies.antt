-- ===== src/Rpc/Replies.antt =====
-- A request of one's own (pygls/protocol/json_rpc.py) and the replies to it: what is due to its future.
use pygls.Prelude.{
  ℕ, ◌+◌, ◌≤◌, ◌≡◌, ◌≢◌, String, Bool, true, false, ◌&&◌, List, [], ◌∷◌, Option, none, some,
  if◌then◌else◌, get_elem?,
}
use text.Mathlib.Text.{◌==◌ as str_eq}
use pygls.Prelude.Dict
use pygls.Errors.{from_error, exceptions}
use pygls.Rpc.{
  Handler, Turn, yields, stops, MsgId, eq_id, id_eq, rpc, Settled, result, failed, cancelled,
  FutureState, queued, running, task, awaiting, settled, Callback, respond, check, sender, resume,
  Future, Protocol, Incoming, in_request, in_notification, in_response, in_error, Feature, plain,
  generator, sync, coroutine, thread,
}
use pygls.Rpc.Send.{Env, accepts}
use pygls.Rpc.Values.{Value, Load, loads, fails, structured}
use pygls.Rpc.Receive.{decode}
use pygls.Rpc.Handle.{get_handler}
use pygls.Rpc.OneResponse.{Event, arrived, received, started, finished, notified, requested, step}
pub mod Others
pub mod Generators
pub mod Events
pub mod Messages
pub mod Steps
pub mod Settles

-- The future of a request of one's own.
abbrev pub own : {A : Type 0} → FutureState A → Future A
own s = record { state = s; callback = sender }

abbrev pub state_of : {A : Type 0} → Option (Settled A) → FutureState A
state_of none = awaiting
state_of (some outcome) = settled outcome

abbrev pub entry_of : {A : Type 0} → ℕ → Option (Settled A) → Option ℕ
entry_of fid none = some fid
entry_of fid (some outcome) = none

abbrev pub or_else {ℓ} : {A : Type ℓ} → Option A → Option A → Option A
or_else none o = o
or_else (some a) o = some a

module _ {A : Type 0} (env : Env A) (id : MsgId) where
  -- What a message means for the request with the id: its result, its error, or its cancellation.
  abbrev pub reply_in : Incoming A → Option (Settled A)
  reply_in (in_response i value) = if eq_id i id then some (result value) else none
  reply_in (in_error i error) =
      if eq_id i id then some (failed (rpc (from_error exceptions error))) else none
  reply_in (in_notification method params) =
      if str_eq method "$/cancelRequest" && eq_id (env.cancel_id params) id
      then some cancelled
      else none
  reply_in (in_request i method params) = none

  abbrev pub reply_accepted : String → Incoming A → Protocol A → Option (Settled A)
  reply_accepted jsonrpc message p = if accepts jsonrpc message p then reply_in message else none

  abbrev pub reply_loaded : Load (Value A) × Protocol A → Option (Settled A)
  reply_loaded (loads (structured jsonrpc message), p) = reply_accepted jsonrpc message p
  reply_loaded (_, p) = none

  abbrev pub reply_value : Option (Value A) → Protocol A → Option (Settled A)
  reply_value none p = none
  reply_value (some v) p = reply_loaded (decode env v p)

  abbrev pub reply_by : Event A → Protocol A → Option (Settled A)
  reply_by (arrived body) p = reply_value (env.parse body) p
  reply_by (received jsonrpc message) p = reply_accepted jsonrpc message p
  reply_by _ p = none

  -- The first reply in a run.
  abbrev pub first_reply : List (Event A) → Protocol A → Option (Settled A)
  first_reply [] p = none
  first_reply (e ∷ es) p = or_else (reply_by e p) (first_reply es (step env e p))

-- The id of a request of one's own: the one that is chosen, or a new one.
abbrev pub id_of : {A : Type 0} → Env A → Option MsgId → Protocol A → MsgId
id_of env (some id) p = id
id_of env none p = MsgId.str (env.uuid p.uuids)

-- How often a request of one's own is sent under the id, where an id is chosen.
abbrev pub sent_as : {A : Type 0} → MsgId → List (Event A) → ℕ
sent_as id [] = 0
sent_as id (requested method params (some i) ∷ es) = (if eq_id i id then 1 else 0) + sent_as id es
sent_as id (e ∷ es) = sent_as id es

-- A callback that does not respond to the id, nor runs a generator on whose result goes to the future.
abbrev pub IsOther : MsgId → ℕ → Callback → Type 0
IsOther id fid (respond i) = eq_id i id ≡ false
IsOther id fid check = Unit
IsOther id fid sender = Unit
IsOther id fid (resume left code r) = r ≢ fid

abbrev pub AllOther : {A : Type 0} → MsgId → ℕ → List (Future A) → Type 0
AllOther id fid [] = Unit
AllOther id fid (f ∷ fs) = IsOther id fid f.callback × AllOther id fid fs

module _ {A : Type 0} (id : MsgId) (fid uuids : ℕ) where
  -- The entry of the request is there exactly as long as its future waits.
  abbrev pub Linked : Option (Settled A) → Option ℕ → Type 0
  Linked s entry = entry ≡ entry_of fid s

  -- The future of the request waits or has ended, no other entry refers to it, and as many uuids have been
  -- drawn.
  pub record Waits (s : Option (Settled A)) (p : Protocol A) : Type 0 where
    pub here : get_elem? p.futures fid ≡ some (own (state_of s))
    pub linked : Linked s (Dict.get p.request_futures id)
    pub only : (i : MsgId) → Dict.get p.request_futures i ≡ some fid → i ≡ id
    pub others : AllOther id fid p.futures
    pub drawn : uuids ≤ p.uuids

  -- A synchronous handler leaves the future of the request alone; the others are run later.
  abbrev pub HandlerSpares : Handler A → Type 0
  HandlerSpares (sync call) =
      (s : Option (Settled A)) (params : A) (p : Protocol A) → Waits s p → Waits s (call params p).1
  HandlerSpares coroutine = Unit
  HandlerSpares thread = Unit

  abbrev pub SparesRequest : Feature A → Type 0
  SparesRequest (plain h) = HandlerSpares h
  SparesRequest (generator left start) = Unit

  abbrev pub TurnSpares : Turn A → Type 0
  TurnSpares (yields h params code) = HandlerSpares h
  TurnSpares (stops done) = Unit

  -- Handlers, and what generators do between their yields, leave the future of the request alone, and new
  -- ids differ from that of the request.
  pub record IsCareful (env : Env A) : Type 0 where
    pub spares :
        (method : String) (h : Feature A) → get_handler env method ≡ some h → SparesRequest h
    pub sends :
        (code r : ℕ) (value : Option A) (s : Option (Settled A)) (p : Protocol A)
        → Waits s p
        → Waits s (env.send_generator code r value p).1
    pub yielded :
        (code r : ℕ) (value : Option A) (p : Protocol A)
        → TurnSpares (env.send_generator code r value p).0
    pub ends :
        (code r : ℕ) (value : Option A) (s : Option (Settled A)) (p : Protocol A)
        → Waits s p
        → Waits s (env.end_generator code r value p).1
    pub fresh : (n : ℕ) → uuids ≤ n → eq_id (MsgId.str (env.uuid n)) id ≡ false
