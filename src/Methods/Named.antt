-- ===== src/Methods/Named.antt =====
-- The generated classes are what the generator writes, and each message is sent under its name.
use pygls.Prelude.{◌≡◌, refl, String, true, false, List, [], ◌∷◌, ◌++◌, some}
use mathlib.Core.Path.{subst}
use mathlib.Core.List.{Memᴰ}
use pygls.Rpc.{Protocol}
use pygls.Rpc.Send.{Env}
use pygls.Rpc.ServerExit.{Client}
use pygls.Methods.{
  raises, Method, Row, filter, is_for_client, is_for_server, write_all, unless_stopped,
  generate_client, generate_server, python_name, to_snake_case, replace_slash, drop_dollar,
  attribute,
}
use pygls.Methods.Rows.{client_rows, server_rows}
use pygls.Methods.OfClient.{base_language_client}
use pygls.Methods.OfServer.{base_language_server}
use pygls.Methods.Attributes.{
  all_differ, names, names_of, message_for, Written, Written-write_all, attribute-Memᴰ,
}

module _ {A : Type 0} (env : Env A) where
  written_client : write_all env unless_stopped client_rows ≡ base_language_client env
  unfolding base_language_client python_name to_snake_case replace_slash drop_dollar
  written_client = refl

  written_server : write_all env (λ call. call) server_rows ≡ base_language_server env
  unfolding base_language_server python_name to_snake_case replace_slash drop_dollar
  written_server = refl

  -- For a table in which the messages that a client may send, and those that a server may send, are
  -- those of the two files, in their order: the generator writes exactly the two classes, each method
  -- with its name, its message and its guard.
  pub generated :
      (table : List Row)
      → filter is_for_client table ≡ client_rows
      → filter is_for_server table ≡ server_rows
      → (generate_client env table ≡ base_language_client env)
        × (generate_server env table ≡ base_language_server env)
  unfolding generate_client generate_server
  generated table c s = (rw c written_client, rw s written_server)

  client_names_differ : all_differ (names (base_language_client env)) ≡ true
  unfolding base_language_client
  client_names_differ = refl

  server_names_differ : all_differ (names (base_language_server env)) ≡ true
  unfolding base_language_server
  server_names_differ = refl

  base_language_client-Written :
      (row : Row) (n : String)
      → Memᴰ row client_rows
      → Memᴰ n (names_of row)
      → Written env unless_stopped (base_language_client env) row n
  base_language_client-Written row n d h =
      subst (λ ms. Written env unless_stopped ms row n) written_client
        (Written-write_all env unless_stopped client_rows row n d h)

  base_language_server-Written :
      (row : Row) (n : String)
      → Memᴰ row server_rows
      → Memᴰ n (names_of row)
      → Written env (λ call. call) (base_language_server env) row n
  base_language_server-Written row n d h =
      subst (λ ms. Written env (λ call. call) ms row n) written_server
        (Written-write_all env (λ call. call) server_rows row n d h)

  -- A client that is not stopped, with a writer that takes the message: for each of the messages a
  -- client may send, the method of its Python name, and for a request that with `_async` behind it,
  -- sends exactly one message: the request or the notification itself, with the params given, and a
  -- request under a new id.
  pub client_attribute-sends :
      (row : Row) (n : String) (params : A) (c : Client A)
      → Memᴰ row client_rows
      → Memᴰ n (names_of row)
      → c.stop_event ≡ false
      → c.protocol.has_writer ≡ true
      → env.writes (message_for env row params c.protocol) ≡ true
      → (f : Method A (Client A)) × (attribute (base_language_client env) n ≡ some f)
        × ((f params c).1.protocol.sent
            ≡ c.protocol.sent ++ message_for env row params c.protocol ∷ [])
  client_attribute-sends row n params c d h s w t =
      let written = base_language_client-Written row n d h in
      (
        (λ ps. unless_stopped (written.0 ps)),
        attribute-Memᴰ n _ _ client_names_differ written.1,
        rw s (written.2 params c.protocol w t),
      )

  -- On a client that is stopped, the methods of all the messages raise a RuntimeError and change
  -- nothing.
  pub client_attribute-stopped :
      (row : Row) (n : String) (params : A) (c : Client A)
      → Memᴰ row client_rows
      → Memᴰ n (names_of row)
      → c.stop_event ≡ true
      → (f : Method A (Client A)) × (attribute (base_language_client env) n ≡ some f)
        × (f params c ≡ (raises "RuntimeError: Client has been stopped.", c))
  client_attribute-stopped row n params c d h s =
      let written = base_language_client-Written row n d h in
      (
        (λ ps. unless_stopped (written.0 ps)),
        attribute-Memᴰ n _ _ client_names_differ written.1,
        rw s refl,
      )

  -- For a server with a writer that takes the message: for each of the messages a server may send,
  -- the method of its Python name, and for a request that with `_async` behind it, sends exactly one
  -- message: the request or the notification itself, with the params given, and a request under a
  -- new id.
  pub server_attribute-sends :
      (row : Row) (n : String) (params : A) (p : Protocol A)
      → Memᴰ row server_rows
      → Memᴰ n (names_of row)
      → p.has_writer ≡ true
      → env.writes (message_for env row params p) ≡ true
      → (f : Method A (Protocol A)) × (attribute (base_language_server env) n ≡ some f)
        × ((f params p).1.sent ≡ p.sent ++ message_for env row params p ∷ [])
  server_attribute-sends row n params p d h w t =
      let written = base_language_server-Written row n d h in
      (written.0, attribute-Memᴰ n _ _ server_names_differ written.1, written.2 params p w t)
