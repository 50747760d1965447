-- ===== src/Rpc/Receive/Kept.antt =====
-- The loading of a body takes nothing but types of results from the protocol.
use pygls.Prelude.{◌≡◌, refl, ap, ◌∙◌, String, Option, none, some}
use pygls.Rpc.{Protocol}
use pygls.Rpc.Values.{
  Value, string, number, scalar, array, object, structured, Items, nil, cons, Fields, end, field,
  get_field, Load, loads, fails,
}
use pygls.Rpc.Send.{Env}
use pygls.Rpc.Receive.{
  Key, key, no_id, unhashable, key_of, structure_response, structure_call, structure_with_id,
  structure_any, structure_tested, structure_message, hooked, listed, cons_after, then_items,
  field_after, then_fields, decode, decode_items, decode_fields,
}

-- Only the types of results differ.
abbrev pub OnlyTypes : {A : Type 0} → Protocol A → Protocol A → Type 0
OnlyTypes p q = q ≡ record p { result_types = q.result_types }

abbrev with_types : {A : Type 0} → Protocol A → Protocol A → Protocol A
with_types r s = record s { result_types = r.result_types }

pub OnlyTypes-trans :
    {A : Type 0} (p q r : Protocol A) → OnlyTypes p q → OnlyTypes q r → OnlyTypes p r
OnlyTypes-trans p q r h k = k ∙ ap (with_types r) h

module _ {A : Type 0} (env : Env A) where
  response-OnlyTypes :
      (k : Key) (obj : Fields A) (p : Protocol A) → OnlyTypes p (structure_response env k obj p).1
  unfolding structure_response
  response-OnlyTypes unhashable obj p = refl
  response-OnlyTypes no_id obj p = refl
  response-OnlyTypes (key i) obj p = refl

  structure_message-OnlyTypes :
      (obj : Fields A) (p : Protocol A) → OnlyTypes p (structure_message env obj p).1
  unfolding structure_message structure_tested structure_any structure_with_id structure_call
  structure_message-OnlyTypes obj p = tested (get_field "jsonrpc" obj)
    where
      call :
          (msg_id : Value A) (o : Option (Value A))
          → OnlyTypes p (structure_call env msg_id o obj p).1
      call msg_id (some method) = refl
      call msg_id none = response-OnlyTypes (key_of env msg_id) obj p

      with_id :
          (msg_id : Value A) (o : Option (Value A))
          → OnlyTypes p (structure_with_id env msg_id o obj p).1
      with_id msg_id (some error) = refl
      with_id msg_id none = call msg_id (get_field "method" obj)

      any : (o : Option (Value A)) → OnlyTypes p (structure_any env o obj p).1
      any (some msg_id) = with_id msg_id (get_field "error" obj)
      any none = refl

      tested : (o : Option (Value A)) → OnlyTypes p (structure_tested env o obj p).1
      tested none = refl
      tested (some version) = any (get_field "id" obj)

  module _ (p : Protocol A) where
    hooked-OnlyTypes :
        (r : Load (Fields A) × Protocol A) → OnlyTypes p r.1 → OnlyTypes p (hooked env r).1
    unfolding hooked
    hooked-OnlyTypes (fails e, q) h = h
    hooked-OnlyTypes (loads obj, q) h =
        OnlyTypes-trans p q (structure_message env obj q).1 h (structure_message-OnlyTypes obj q)

    listed-OnlyTypes :
        (r : Load (Items A) × Protocol A) → OnlyTypes p r.1 → OnlyTypes p (listed env r).1
    unfolding listed
    listed-OnlyTypes (fails e, q) h = h
    listed-OnlyTypes (loads items, q) h = h

    cons_after-OnlyTypes :
        (v : Value A) (r : Load (Items A) × Protocol A)
        → OnlyTypes p r.1
        → OnlyTypes p (cons_after env v r).1
    unfolding cons_after
    cons_after-OnlyTypes v (fails e, q) h = h
    cons_after-OnlyTypes v (loads items, q) h = h

    field_after-OnlyTypes :
        (name : String) (v : Value A) (r : Load (Fields A) × Protocol A)
        → OnlyTypes p r.1
        → OnlyTypes p (field_after env name v r).1
    unfolding field_after
    field_after-OnlyTypes name v (fails e, q) h = h
    field_after-OnlyTypes name v (loads obj, q) h = h

    then_items-OnlyTypes :
        (rest : Protocol A → Load (Items A) × Protocol A) (r : Load (Value A) × Protocol A)
        → ((q : Protocol A) → OnlyTypes q (rest q).1)
        → OnlyTypes p r.1
        → OnlyTypes p (then_items env rest r).1
    unfolding then_items
    then_items-OnlyTypes rest (fails e, q) k h = h
    then_items-OnlyTypes rest (loads v, q) k h =
        cons_after-OnlyTypes v (rest q) (OnlyTypes-trans p q (rest q).1 h (k q))

    then_fields-OnlyTypes :
        (name : String) (rest : Protocol A → Load (Fields A) × Protocol A)
        (r : Load (Value A) × Protocol A)
        → ((q : Protocol A) → OnlyTypes q (rest q).1)
        → OnlyTypes p r.1
        → OnlyTypes p (then_fields env name rest r).1
    unfolding then_fields
    then_fields-OnlyTypes name rest (fails e, q) k h = h
    then_fields-OnlyTypes name rest (loads v, q) k h =
        field_after-OnlyTypes name v (rest q) (OnlyTypes-trans p q (rest q).1 h (k q))

  mutual
    unfolding decode

    pub decode-OnlyTypes : (v : Value A) (p : Protocol A) → OnlyTypes p (decode env v p).1
    decode-OnlyTypes (array items) p =
        listed-OnlyTypes p (decode_items env items p) (items-OnlyTypes items p)
    decode-OnlyTypes (object obj) p =
        hooked-OnlyTypes p (decode_fields env obj p) (fields-OnlyTypes obj p)
    decode-OnlyTypes (string s) p = refl
    decode-OnlyTypes (number n) p = refl
    decode-OnlyTypes (scalar a) p = refl
    decode-OnlyTypes (structured version message) p = refl

    items-OnlyTypes : (items : Items A) (p : Protocol A) → OnlyTypes p (decode_items env items p).1
    items-OnlyTypes nil p = refl
    items-OnlyTypes (cons v items) p =
        then_items-OnlyTypes p (λ q. decode_items env items q) (decode env v p)
          (λ q. items-OnlyTypes items q) (decode-OnlyTypes v p)

    fields-OnlyTypes : (obj : Fields A) (p : Protocol A) → OnlyTypes p (decode_fields env obj p).1
    fields-OnlyTypes end p = refl
    fields-OnlyTypes (field k v obj) p =
        then_fields-OnlyTypes p k (λ q. decode_fields env obj q) (decode env v p)
          (λ q. fields-OnlyTypes obj q) (decode-OnlyTypes v p)
