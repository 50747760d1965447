-- ===== src/Tests/Generated.antt =====
-- The generated classes at concrete inputs.
use pygls.Prelude.{get_elem?, sym, zero, suc, ℕ, ◌≡◌, refl, List, [], ◌∷◌, some, true, false}
use mathlib.Core.Option.{some-injective}
use mathlib.Core.List.{Memᴰ}
use pygls.Rpc.{str, request, notification, Protocol}
use pygls.Rpc.ServerExit.{Client}
use pygls.Methods.{
  raises, Method, Row, row_of, client_to_server, server_to_client, both, attribute, python_name,
  to_snake_case, replace_slash, drop_dollar,
}
use pygls.Methods.Rows.{client_rows, server_rows}
use pygls.Methods.OfClient.{base_language_client}
use pygls.Methods.OfServer.{base_language_server}
use pygls.Methods.Named.{client_attribute-sends, client_attribute-stopped, server_attribute-sends}
use pygls.Tests.Protocol.{an_env, idle}

abbrev a_client : Client ℕ
a_client = record { protocol = idle; stop_event = false }

abbrev a_stopped_client : Client ℕ
a_stopped_client = record { protocol = idle; stop_event = true }

abbrev hover : Row
hover = row_of "textDocument/hover" client_to_server true

-- An entry of a list, by its place.
entry : {A : Type 0} (n : ℕ) (l : List A) {a : A} → get_elem? l n ≡ some a → Memᴰ a l
entry n [] h = cc
entry zero (x ∷ l) h = Memᴰ.head (sym (some-injective x _ h))
entry (suc n) (x ∷ l) h = Memᴰ.tail (entry n l h)

-- A request, by the name of the coroutine.
client_attribute-sends_example :
    (f : Method ℕ (Client ℕ)) × (attribute (base_language_client an_env) "text_document_hover_async"
      ≡ some f)
    × ((f 5 a_client).1.protocol.sent ≡ request (str "uuid") "textDocument/hover" 5 ∷ [])
unfolding python_name to_snake_case replace_slash drop_dollar
client_attribute-sends_example =
    client_attribute-sends an_env hover "text_document_hover_async" 5 a_client
      (entry 22 client_rows refl) (Memᴰ.tail (Memᴰ.head refl)) refl refl refl

-- A notification.
client_attribute-stopped_example :
    (f : Method ℕ (Client ℕ)) × (attribute (base_language_client an_env) "cancel_request" ≡ some f)
    × (f 5 a_stopped_client ≡ (raises "RuntimeError: Client has been stopped.", a_stopped_client))
unfolding python_name to_snake_case replace_slash drop_dollar
client_attribute-stopped_example =
    client_attribute-stopped an_env (row_of "$/cancelRequest" both false) "cancel_request" 5
      a_stopped_client (entry 54 client_rows refl) (Memᴰ.head refl) refl

-- A notification of a server.
server_attribute-sends_example :
    (f : Method ℕ (Protocol ℕ)) × (attribute (base_language_server an_env) "window_show_message"
      ≡ some f)
    × ((f 5 idle).1.sent ≡ notification "window/showMessage" 5 ∷ [])
unfolding python_name to_snake_case replace_slash drop_dollar
server_attribute-sends_example =
    server_attribute-sends an_env (row_of "window/showMessage" server_to_client false)
      "window_show_message" 5 idle (entry 21 server_rows refl) (Memᴰ.head refl) refl refl
