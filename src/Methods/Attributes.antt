-- ===== src/Methods/Attributes.antt =====
-- The methods of a generated class by their names.
use pygls.Prelude.{
  ◌≡◌, refl, sym, ap, String, Bool, true, false, not, ◌&&◌, List, [], ◌∷◌, ◌++◌, none, some, map,
  if◌then◌else◌, arith,
}
use mathlib.Core.Path.{subst}
use mathlib.Core.List.{Memᴰ}
use mathlib.Core.List.Memᴰ
use Prim.Native.String.{◌++◌ as ◌++s◌}
use text.Mathlib.Text.{◌==◌ as str_eq}
use text.Mathlib.TextEquality.{eq_iff}
use pygls.Rpc.{Message, request, notification, str, Protocol}
use pygls.Rpc.Send.{Env, send_data}
use pygls.Rpc.Handle.{send_request, send_request_as, notify}
use pygls.Methods.{
  Called, Method, Row, Direction, row_of, attribute, write, write_all, send, send_async,
  send_notification, python_name,
}

-- The name is none of the others, and all differ.
abbrev pub is_new : String → List String → Bool
is_new n [] = true
is_new n (m ∷ ms) = not (str_eq m n) && is_new n ms

abbrev pub all_differ : List String → Bool
all_differ [] = true
all_differ (n ∷ ns) = is_new n ns && all_differ ns

-- The names that are generated for a row.
abbrev pub names_of : Row → List String
names_of row =
    if row.has_response
    then python_name row.message ∷ (python_name row.message ++s "_async") ∷ []
    else python_name row.message ∷ []

module _ {A S : Type 0} where
  abbrev pub names : List (String × Method A S) → List String
  names methods = map (λ e. e.0) methods

  attribute-is_new :
      (n : String) (methods : List (String × Method A S))
      → is_new n (names methods) ≡ true
      → attribute methods n ≡ none
  unfolding attribute
  attribute-is_new n [] h = refl
  attribute-is_new n ((m, f) ∷ methods) h = ground (arith, attribute-is_new n methods)

  is_new-Memᴰ :
      (n : String) (f : Method A S) (methods : List (String × Method A S))
      → Memᴰ (n, f) methods
      → is_new n (names methods) ≡ false
  is_new-Memᴰ n f [] d = elim d [ ]
  is_new-Memᴰ n f (m ∷ methods) (Memᴰ.head e) = rw ((eq_iff m.0 n).1 (sym (ap (λ x. x.0) e))) refl
  is_new-Memᴰ n f (m ∷ methods) (Memᴰ.tail d) = ground (arith, is_new-Memᴰ n f methods d)

  pub attribute-Memᴰ :
      (n : String) (f : Method A S) (methods : List (String × Method A S))
      → all_differ (names methods) ≡ true
      → Memᴰ (n, f) methods
      → attribute methods n ≡ some f
  unfolding attribute
  attribute-Memᴰ n f [] h d = elim d [ ]
  attribute-Memᴰ n f (m ∷ methods) h (Memᴰ.head e) =
      let first : is_new m.0 (names methods) ≡ true = ground arith in
      let same : str_eq m.0 n ≡ true = (eq_iff m.0 n).1 (sym (ap (λ x. x.0) e)) in
      let gone : attribute methods n ≡ none =
        rw (ap (λ x. x.0) e) (attribute-is_new m.0 methods first) in
      rw (gone, same) (ap some (sym (ap (λ x. x.1) e)))
  attribute-Memᴰ n f (m ∷ methods) h (Memᴰ.tail d) =
      let rest : all_differ (names methods) ≡ true = ground arith in
      rw (attribute-Memᴰ n f methods rest d) refl

module _ {A : Type 0} (env : Env A) where
  -- The message that is sent for a row.
  abbrev pub message_for : Row → A → Protocol A → Message A
  message_for row params p =
      if row.has_response
      then request (str (env.uuid p.uuids)) row.message params
      else notification row.message params

  -- A call of the protocol that sends the message of a row, and nothing else, if the writer takes it.
  abbrev pub Sends : Row → (A → Protocol A → Called × Protocol A) → Type 0
  Sends row call =
      (params : A) (p : Protocol A)
      → p.has_writer ≡ true
      → env.writes (message_for row params p) ≡ true
      → (call params p).1.sent ≡ p.sent ++ message_for row params p ∷ []

  Sends-send : (m : String) (d : Direction) → Sends (row_of m d true) (send env m)
  unfolding send_request send_request_as send_data
  Sends-send m d params p w h = rw (w, h) refl

  Sends-send_async : (m : String) (d : Direction) → Sends (row_of m d true) (send_async env m)
  unfolding send_request send_request_as send_data
  Sends-send_async m d params p w h = rw (w, h) refl

  Sends-send_notification :
      (m : String) (d : Direction) → Sends (row_of m d false) (send_notification env m)
  unfolding notify send_data
  Sends-send_notification m d params p w h = rw (w, h) refl

  module _ {S : Type 0} (guard : (Protocol A → Called × Protocol A) → S → Called × S) where
    -- A method that is generated for a row with a name, the call of the protocol in it, and what it sends.
    abbrev pub Written : List (String × Method A S) → Row → String → Type 0
    Written methods row n =
        (call : A → Protocol A → Called × Protocol A) × Memᴰ (n, λ params. guard (call params))
          methods
        × Sends row call

    Written-write :
        (m : String) (d : Direction) (b : Bool) (n : String)
        → Memᴰ n (names_of (row_of m d b))
        → Written (write env guard (row_of m d b)) (row_of m d b) n
    Written-write m d true n (Memᴰ.head e) = (
      send env m,
      Memᴰ.head (ap (λ x. (x, λ params. guard (send env m params))) e),
      Sends-send m d,
    )
    Written-write m d true n (Memᴰ.tail (Memᴰ.head e)) = (
      send_async env m,
      Memᴰ.tail (Memᴰ.head (ap (λ x. (x, λ params. guard (send_async env m params))) e)),
      Sends-send_async m d,
    )
    Written-write m d true n (Memᴰ.tail (Memᴰ.tail h)) = elim h [ ]
    Written-write m d false n (Memᴰ.head e) = (
      send_notification env m,
      Memᴰ.head (ap (λ x. (x, λ params. guard (send_notification env m params))) e),
      Sends-send_notification m d,
    )
    Written-write m d false n (Memᴰ.tail h) = elim h [ ]

    pub Written-write_all :
        (rows : List Row) (row : Row) (n : String)
        → Memᴰ row rows
        → Memᴰ n (names_of row)
        → Written (write_all env guard rows) row n
    Written-write_all [] row n d h = elim d [ ]
    Written-write_all (r ∷ rows) row n (Memᴰ.head e) h =
        let h' = subst (λ x. Memᴰ n (names_of x)) e h in
        let w = Written-write r.message r.direction r.has_response n h' in
        (w.0, Memᴰ.append_left (write_all env guard rows) w.1, subst (λ x. Sends x w.0) (sym e) w.2)
    Written-write_all (r ∷ rows) row n (Memᴰ.tail d) h =
        let w = Written-write_all rows row n d h in
        (w.0, Memᴰ.append_right (write env guard r) w.1, w.2)
