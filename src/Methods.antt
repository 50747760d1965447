-- ===== src/Methods.antt =====
-- What the generated methods of pygls/lsp/_base_client.py and _base_server.py do, and the generator
-- that writes them from the table of lsprotocol's messages (scripts/generate_code.py).
use pygls.Prelude.{
  ℕ, ◌-◌, String, Bool, true, false, ◌&&◌, List, [], ◌∷◌, ◌++◌, Option, none, some, leb, ◌==◌,
  if◌then◌else◌,
}
use Prim.Native.Char.{Char, code}
use Prim.Native.String.{◌++◌ as ◌++s◌, char_at}
use text.Mathlib.Text.{◌==◌ as str_eq}
use pygls.Rpc.{Protocol}
use pygls.Rpc.Send.{Env}
use pygls.Rpc.Handle.{send_request, notify}
use pygls.Rpc.ServerExit.{Client}
pub mod OfClient
pub mod OfServer
pub mod Rows
pub mod Attributes
pub mod Named

-- How a call of a generated method ends: with a future, with a future that the coroutine awaits,
-- with `None`, or with an exception.
pub data Called : Type 0 where
  returns : ℕ → Called
  awaits : ℕ → Called
  returns_none : Called
  raises : String → Called

module _ {A : Type 0} (env : Env A) where
  -- return self.protocol.send_request(method, params, callback)
  abbrev pub send : String → A → Protocol A → Called × Protocol A
  send method params p = let r = send_request env method params none p in (returns r.0, r.1)

  -- return await self.protocol.send_request_async(method, params)
  abbrev pub send_async : String → A → Protocol A → Called × Protocol A
  send_async method params p = let r = send_request env method params none p in (awaits r.0, r.1)

  -- self.protocol.notify(method, params)
  abbrev pub send_notification : String → A → Protocol A → Called × Protocol A
  send_notification method params p = (returns_none, notify env method params p)

-- if self.stopped: raise RuntimeError("Client has been stopped.")
abbrev pub unless_stopped :
    {A : Type 0} → (Protocol A → Called × Protocol A) → Client A → Called × Client A
unless_stopped call c =
    let r = call c.protocol in
    if c.stop_event
    then (raises "RuntimeError: Client has been stopped.", c)
    else (r.0, record c { protocol = r.1 })

-- c.isupper() and c.lower(), for ASCII, in which the names of messages are written
abbrev is_upper : Char → Bool
is_upper c = leb 65 (code c) && leb (code c) 90

abbrev lower : Char → Char
lower c = char_at "abcdefghijklmnopqrstuvwxyz" (code c - 65)

abbrev one : Char → String
one c = String.◌∷◌ c String.[]

-- "".join(f"_{c.lower()}" if c.isupper() else c for c in string)
unfoldable pub to_snake_case : String → String
to_snake_case String.[] = String.[]
to_snake_case (String.◌∷◌ c s) =
    (if is_upper c then "_" ++s one (lower c) else one c) ++s to_snake_case s

-- s.replace("/", "_")
unfoldable pub replace_slash : String → String
replace_slash String.[] = String.[]
replace_slash (String.◌∷◌ c s) = one (if code c == b'/' then "_" else c) ++s replace_slash s

-- s.replace("$_", "")
unfoldable pub drop_dollar : String → String
drop_dollar String.[] = String.[]
drop_dollar (String.◌∷◌ c String.[]) = one c
drop_dollar (String.◌∷◌ c (String.◌∷◌ d s)) =
    let dropped = drop_dollar s in
    let kept = one c ++s drop_dollar (String.◌∷◌ d s) in
    if (code c == b'$') && (code d == b'_') then dropped else kept

unfoldable pub python_name : String → String
unfolding to_snake_case replace_slash drop_dollar
python_name method = drop_dollar (replace_slash (to_snake_case method))

-- message_direction(method), which lsprotocol gives
pub data Direction : Type 0 where
  client_to_server server_to_client both : Direction

-- A row of METHOD_TO_TYPES: whether it has a response.
pub record Row : Type 0 where
  pub message : String
  pub direction : Direction
  pub has_response : Bool

abbrev pub row_of : String → Direction → Bool → Row
row_of m d h = record { message = m; direction = d; has_response = h }

-- A method of a class, which takes the params of a message and the object.
abbrev pub Method : Type 0 → Type 0 → Type 0
Method A S = A → S → Called × S

-- getattr(cls, name): of methods with the same name, the last.
unfoldable pub attribute :
    {A S : Type 0} → List (String × Method A S) → String → Option (Method A S)
attribute [] name = none
attribute ((n, method) ∷ methods) name = elim (attribute methods name) [
  | some later ↦ some later
  | none ↦ if str_eq n name then some method else none
]

-- What is generated for a row. A client has a guard around the call of the protocol, and a server none.
module _ {A S : Type 0} (env : Env A)
    (guard : (Protocol A → Called × Protocol A) → S → Called × S) where
  abbrev write_method : String → List (String × Method A S)
  write_method message =
      (python_name message, λ params. guard (send env message params))
      ∷ (python_name message ++s "_async", λ params. guard (send_async env message params))
      ∷ []

  abbrev write_notification : String → List (String × Method A S)
  write_notification message =
      (python_name message, λ params. guard (send_notification env message params)) ∷ []

  abbrev pub write : Row → List (String × Method A S)
  write row = if row.has_response then write_method row.message else write_notification row.message

  abbrev pub write_all : List Row → List (String × Method A S)
  write_all [] = []
  write_all (row ∷ rows) = write row ++ write_all rows

-- message_direction(method_name) == "serverToClient": skipped
abbrev pub is_for_client : Direction → Bool
is_for_client server_to_client = false
is_for_client _ = true

-- message_direction(method_name) == "clientToServer": skipped
abbrev pub is_for_server : Direction → Bool
is_for_server client_to_server = false
is_for_server _ = true

abbrev pub filter : (Direction → Bool) → List Row → List Row
filter keep [] = []
filter keep (row ∷ rows) =
    let rest = filter keep rows in if keep row.direction then row ∷ rest else rest

-- The methods of `BaseLanguageClient` and of `BaseLanguageServer`, from the rows of METHOD_TO_TYPES.
unfoldable pub generate_client :
    {A : Type 0} → Env A → List Row → List (String × Method A (Client A))
generate_client env rows = write_all env unless_stopped (filter is_for_client rows)

unfoldable pub generate_server :
    {A : Type 0} → Env A → List Row → List (String × Method A (Protocol A))
generate_server env rows = write_all env (λ call. call) (filter is_for_server rows)
