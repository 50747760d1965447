-- ===== src/Rpc/Shutdown/Dropped.antt =====
-- Messages after the shutdown (pygls/protocol/json_rpc.py, `handle_message`).
use pygls.Prelude.{
  ℕ, ◌≡◌, refl, ap, ◌∙◌, sym, String, Bool, true, false, List, [], ◌∷◌, ◌++◌, append-nil,
  append_assoc, Option, none, some, Bool-cases, inl, inr,
}
use text.Mathlib.Text.{◌==◌ as str_eq}
use pygls.Rpc.{Protocol, Source, rpc_exception, Incoming}
use pygls.Rpc.Send.{Env, report, method_of}
use pygls.Rpc.Handle.{handle_message}
use pygls.Rpc.Values.{Value, Load, loads, fails, structured, array, object, string, number, scalar}
use pygls.Rpc.Receive.{decode, handle_loaded, receive_value, receive}
use pygls.Rpc.Receive.Kept.{OnlyTypes, decode-OnlyTypes}
use pygls.Rpc.OneResponse.{
  Event, arrived, received, started, finished, notified, requested, step, steps,
}

module _ {A : Type 0} (env : Env A) where
  abbrev pub IsNoExit : Incoming A → Type 0
  IsNoExit message = str_eq (method_of message) "exit" ≡ false

  abbrev pub IsNoExitLoad : Load (Value A) → Type 0
  IsNoExitLoad (loads (structured version message)) = IsNoExit message
  IsNoExitLoad _ = Unit

  abbrev pub IsNoExitValue : Option (Value A) → Protocol A → Type 0
  IsNoExitValue none p = Unit
  IsNoExitValue (some v) p = IsNoExitLoad (decode env v p).0

  -- The event is that something comes in, which is not the exit.
  abbrev pub IsIncoming : Event A → Protocol A → Type 0
  IsIncoming (arrived body) p = IsNoExitValue (env.parse body) p
  IsIncoming (received version message) p = IsNoExit message
  IsIncoming _ p = ⊥

  abbrev pub AllIncoming : List (Event A) → Protocol A → Type 0
  AllIncoming [] p = Unit
  AllIncoming (e ∷ es) p = IsIncoming e p × AllIncoming es (step env e p)

  handle_message-dropped :
      (version : String) (message : Incoming A) (p : Protocol A)
      → p.shutdown ≡ true
      → IsNoExit message
      → handle_message env version message p ≡ p
  unfolding handle_message
  handle_message-dropped version message p s n = elim (Bool-cases (str_eq version "2.0")) [
    | inl e ↦ rw (e, s, n) refl
    | inr e ↦ rw e refl
  ]

  -- The calls of the error handler for the bodies that are no messages, in a run.
  abbrev pub refusals_of : Bool → List Source
  refusals_of true = []
  refusals_of false = rpc_exception ∷ []

  abbrev pub refusals_by : Event A → Protocol A → List Source
  refusals_by (arrived body) p = refusals_of (receive env body p).0
  refusals_by _ p = []

  abbrev pub refusals : List (Event A) → Protocol A → List Source
  refusals [] p = []
  refusals (e ∷ es) p = refusals_by e p ++ refusals es (step env e p)

  -- The new state differs in the types of results and in these reports only.
  abbrev pub OnlyReports : List Source → Protocol A → Protocol A → Type 0
  OnlyReports sources p q =
      q ≡ record p { result_types = q.result_types; reports = p.reports ++ sources }

  OnlyTypes-OnlyReports : (p q : Protocol A) → OnlyTypes p q → OnlyReports [] p q
  OnlyTypes-OnlyReports p q h =
      h
      ∙ ap (λ l. record p { result_types = q.result_types; reports = l })
          (sym (append-nil p.reports))

  abbrev with_reports : Protocol A → Protocol A → List Source → Protocol A
  with_reports p r sources = record p { result_types = r.result_types; reports = sources }

  OnlyReports-trans :
      (ss ts : List Source) (p q r : Protocol A)
      → OnlyReports ss p q
      → OnlyReports ts q r
      → OnlyReports (ss ++ ts) p r
  OnlyReports-trans ss ts p q r h k =
      k
      ∙ ap (λ x. with_reports x r (x.reports ++ ts)) h
      ∙ ap (with_reports p r) (append_assoc p.reports ss ts)

  receive-OnlyReports :
      (body : List ℕ) (p : Protocol A)
      → p.shutdown ≡ true
      → IsNoExitValue (env.parse body) p
      → OnlyReports (refusals_of (receive env body p).0) p (receive env body p).1
  unfolding receive receive_value handle_loaded
  receive-OnlyReports body p s = by_value (env.parse body)
    where
      loaded :
          (r : Load (Value A) × Protocol A)
          → OnlyTypes p r.1
          → IsNoExitLoad r.0
          → OnlyReports (refusals_of (handle_loaded env r).0) p (handle_loaded env r).1
      loaded (loads (structured version message), q) h n =
          let kept : q.shutdown ≡ true = ap (λ x. x.shutdown) h ∙ s in
          rw (handle_message-dropped version message q kept n) (OnlyTypes-OnlyReports p q h)
      loaded (fails e, q) h n = ap (report rpc_exception) h
      loaded (loads (array items), q) h n = ap (report rpc_exception) h
      loaded (loads (object obj), q) h n = ap (report rpc_exception) h
      loaded (loads (string t), q) h n = ap (report rpc_exception) h
      loaded (loads (number k), q) h n = ap (report rpc_exception) h
      loaded (loads (scalar a), q) h n = ap (report rpc_exception) h

      by_value :
          (o : Option (Value A))
          → IsNoExitValue o p
          → OnlyReports (refusals_of (receive_value env o p).0) p (receive_value env o p).1
      by_value none n = refl
      by_value (some v) n = loaded (decode env v p) (decode-OnlyTypes env v p) n

  step-OnlyReports :
      (e : Event A) (p : Protocol A)
      → p.shutdown ≡ true
      → IsIncoming e p
      → OnlyReports (refusals_by e p) p (step env e p)
  unfolding step
  step-OnlyReports (arrived body) p s n = receive-OnlyReports body p s n
  step-OnlyReports (received version message) p s n =
      rw (handle_message-dropped version message p s n) (OnlyTypes-OnlyReports p p refl)
  step-OnlyReports (started fid) p s n = elim n [ ]
  step-OnlyReports (finished fid outcome) p s n = elim n [ ]
  step-OnlyReports (notified method params) p s n = elim n [ ]
  step-OnlyReports (requested method params msg_id) p s n = elim n [ ]

  -- Once the protocol is shut down, whatever comes in and is not the exit, bodies and messages in any
  -- order: the error handler of the loop is called once for each body that is no message, in their order.
  -- Beside that nothing is reported, the protocol sends nothing, runs no handler and ends no future; only
  -- what the loading of bodies takes from the types of results may change. In particular requests are not
  -- answered, and responses to requests of one's own are lost. What the error handler, which is the
  -- server's, does with its call (a `LanguageServer` shows the client a message) is not part of this.
  pub after_shutdown :
      (es : List (Event A)) (p : Protocol A)
      → p.shutdown ≡ true
      → AllIncoming es p
      → OnlyReports (refusals es p) p (steps env es p)
  unfolding steps
  after_shutdown [] p s a = OnlyTypes-OnlyReports p p refl
  after_shutdown (e ∷ es) p s (n, a) =
      let first = step-OnlyReports e p s n in
      OnlyReports-trans (refusals_by e p) (refusals es (step env e p)) p (step env e p)
        (steps env es (step env e p)) first
        (after_shutdown es (step env e p) (ap (λ x. x.shutdown) first ∙ s) a)
