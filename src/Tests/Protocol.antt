-- ===== src/Tests/Protocol.antt =====
-- Runs of the protocol (pygls/protocol/json_rpc.py) at concrete inputs.
use pygls.Prelude.{
  Bool, Option, ℕ, ◌+◌, ◌≤◌, ◌≡◌, ◌↔◌, refl, String, true, false, List, [], ◌∷◌, none, some, map,
  if◌then◌else◌,
}
use text.Mathlib.Text.{◌==◌ as str_eq}
use pygls.Prelude.Dict
use pygls.Prelude.Dict.{Dict}
use pygls.Prelude.Eq.{string_eq}
use pygls.Prelude.Int.{pos}
use pygls.Rpc.{int, id_eq, Protocol, thread as thread_handler, result, in_request, in_notification}
use pygls.Rpc.Handle.{get_handler, handle_message}
use pygls.Rpc.Send.{Env}
use pygls.Rpc.Tally.{IsTrusted, tally, responses, owed}
use pygls.Rpc.OneResponse.{
  Event, arrived, received, finished, steps, asked, tally-steps, one_response,
}
use mathlib.Core.Option
use mathlib.Core.Path.{subst}
use mathlib.Core.Option.{some-injective}
use pygls.Rpc.{returned, Feature, plain, generator, yields}
use pygls.Rpc.Handle.{finish}
use pygls.Rpc.Values.{
  Value, Fields, field, end, string, number, object, get_field, Converted, fits, misfit, breaks,
}
use pygls.Rpc.Receive.{receive, decode}
use pygls.Prelude.{◌==◌}
use pygls.Rpc.Send.{send_data, send_result}
use pygls.Rpc.Tally.{QuietFeature, answers}

abbrev pub slow : Feature ℕ
slow = plain thread_handler

abbrev pub twice : Feature ℕ
twice = generator 1 (λ a. a)

-- A body is the id of a request for "slow", whose params do not fit if the id is 9.
abbrev pub request_object : ℕ → Fields ℕ
request_object id = field "jsonrpc" (string "2.0") (
    field "id" (number (pos id)) (field "method" (string "slow") (field "params" (object end) end)))

abbrev parse_id : List ℕ → Option (Value ℕ)
parse_id [] = none
parse_id (id ∷ ids) = some (object (request_object id))

abbrev to_request : Option (Value ℕ) → Converted ℕ
to_request (some (number (pos id))) =
    if id == 9 then misfit else fits "2.0" (in_request (int (pos id)) "slow" 5)
to_request _ = breaks

-- "slow" runs in a thread, and "twice" is a generator that yields to a job in a thread and then
-- returns what it was given.
abbrev pub an_env : Env ℕ
an_env = record {
  writes = λ m. true;
  traceback = λ t. none;
  result_type = λ method. some "Result";
  uuid = λ n. "uuid";
  show_id = λ i. "1";
  cancel_id = λ a. int (pos a);
  builtin_features = record { entries = ("twice", twice) ∷ [] };
  features = record { entries = ("slow", slow) ∷ [] };
  parse = parse_id;
  message_type = λ method. none;
  convert = λ shape obj. to_request (get_field "id" obj);
  equal_id = λ a. none;
  send_generator = λ code fid value p. (yields thread_handler code 0, p);
  end_generator = λ code fid value p. (returned (Option.get_or value 0), p);
}

registered_quiet :
    (method : String) (f : Feature ℕ) → get_handler an_env method ≡ some f → QuietFeature f
unfolding get_handler Dict.get
registered_quiet method f e = by_tables (str_eq "twice" method) (str_eq "slow" method) e
  where
    by_tables :
        (b c : Bool)
        → elim (if b then some twice else none) as (λ o. Option (Feature ℕ)) [
          | some h ↦ some h
          | none ↦ if c then some slow else none
        ]
          ≡ some f
        → QuietFeature f
    by_tables true c e = subst QuietFeature (some-injective twice f e) tt
    by_tables false true e = subst QuietFeature (some-injective slow f e) tt
    by_tables false false e = cc

pub an_env-IsTrusted : IsTrusted an_env
an_env-IsTrusted = record {
  written = λ m. refl;
  registered = registered_quiet;
  yielded = λ code fid value p. tt;
  sends = λ code fid value p w. record { writer = w; same = λ id. refl };
  ends = λ code fid value p w. record { writer = w; same = λ id. refl };
  sends_on = λ code fid value p h. h;
  ends_on = λ code fid value p h. h;
}

abbrev pub idle : Protocol ℕ
idle = record {
  shutdown = false;
  request_futures = Dict.empty;
  result_types = Dict.empty;
  futures = [];
  has_writer = true;
  sent = [];
  reports = [];
  uuids = 0;
}

-- A request for the generator waits for the job that it yields to, which ends, and the generator is
-- run on. Another request, whose body comes in first, is queued and cancelled before it starts; the job that comes afterwards does
-- nothing.
abbrev cancelled_run : List (Event ℕ)
cancelled_run =
    arrived (1 ∷ [])
    ∷ received "2.0" (in_request (int (pos 2)) "twice" 3)
    ∷ received "2.0" (in_notification "$/cancelRequest" 1)
    ∷ finished 2 (result 4)
    ∷ finished 0 (result 9)
    ∷ []

tally-steps_example :
    tally (int (pos 1)) (steps an_env cancelled_run idle)
    ≡ tally (int (pos 1)) idle + asked an_env (int (pos 1)) cancelled_run idle
tally-steps_example = tally-steps an_env an_env-IsTrusted (int (pos 1)) cancelled_run idle refl

one_response_example :
    (responses (int (pos 1)) (steps an_env cancelled_run idle).sent ≤ 1)
    × ((owed (int (pos 1)) (steps an_env cancelled_run idle).futures ≡ 0)
        ↔ (responses (int (pos 1)) (steps an_env cancelled_run idle).sent ≡ 1))
unfolding steps receive decode handle_message get_handler Dict.get
one_response_example =
    one_response an_env an_env-IsTrusted (int (pos 1)) cancelled_run idle refl refl refl

-- Both requests are answered, the cancelled one first.
answered-both : map (answers (int (pos 2))) (steps an_env cancelled_run idle).sent ≡ 0 ∷ 1 ∷ []
unfolding steps receive decode finish handle_message get_handler Dict.get Dict.put send_data
    send_result
answered-both = refl
