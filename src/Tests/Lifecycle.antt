-- ===== src/Tests/Lifecycle.antt =====
-- Runs of the built-in features (pygls/protocol/language_server.py) and of progress
-- (pygls/progress.py) and of commands at concrete inputs.
use text.Mathlib.Text.{◌==◌ as str_eq}
use pygls.Prelude.{ℕ, String, ◌≡◌, refl, Bool, not, true, false, List, [], ◌∷◌, map, none, some}
use pygls.Prelude.Eq.{string_eq}
use pygls.Prelude.Dict
use pygls.Prelude.Dict.{Dict}
use pygls.Command.{Param}
use pygls.Codec.{position, utf16}
use pygls.Outcome.{Exec, raise, key_error, Keeps-raise}
use pygls.Document.{Disk, incremental, partial}
use pygls.Workspace.{Workspace, TextDocumentItem, VersionedId, init, new_workspace}
use pygls.Workspace.Invariant.{perform_all, reached-IsConsistent}
use pygls.Rpc.{str, id_eq}
use pygls.Progress.{Progress, seen}
use pygls.Progress.Tracking.{
  Event, creates, answers, cancels, begins, reports, IsSeparate, steps, seen-steps,
}
use pygls.Tests.Paths.{file_urls}
use pygls.Server.{Server, Params, Platform, serve, initialize, did_open, did_close, shutdown}
use pygls.Server.Mirror.{serve-follows}
use pygls.Server.View.{TextEvent, opened, changed, closed, params_of, follow_all}
use pygls.Server.Invariant.{IsSound, serve-IsSound}

abbrev no_progress : Progress ℕ
no_progress = record { tokens = Dict.empty; cancelled = λ f. false; next = 0; sent = [] }

no_progress-IsSeparate : IsSeparate no_progress
unfolding Dict.get
no_progress-IsSeparate = record { allocated = λ t f e. cc; apart = λ t u f e d. cc }

-- The progress begins and is cancelled before its creation is answered, which loses the cancellation.
abbrev late_answer : List (Event ℕ)
late_answer =
    creates (str "a")
    ∷ begins (str "a") 0
    ∷ cancels (str "a")
    ∷ answers (str "a")
    ∷ reports (str "a") 50
    ∷ []

seen-steps_example : seen (steps late_answer no_progress) (str "a") ≡ some false
unfolding Dict.get
seen-steps_example = seen-steps late_answer no_progress no_progress-IsSeparate (str "a")

abbrev no_disk : Disk
no_disk uri = none

-- A handler that raises at once.
abbrev failing : Params ℕ → Exec (Server ℕ) (Unit {0})
failing p = raise key_error

abbrev an_item : TextDocumentItem
an_item = record { uri = "file:///a"; language_id = "text"; version = 1; text = 97 ∷ 98 ∷ [] }

abbrev an_id : VersionedId
an_id = record { uri = "file:///a"; version = 2 }

-- A uri with an open bracket, which `urlparse` refuses, is the only one that does not parse.
abbrev no_bracket : String → Bool
no_bracket uri = not (str_eq uri "file://[a")

abbrev bracket_item : TextDocumentItem
bracket_item = record { uri = "file://[a"; language_id = "text"; version = 1; text = [] }

-- The document is opened, one whose uri does not parse is not, the document is changed, and one that is
-- not open is closed.
abbrev session : List TextEvent
session =
    opened an_item
    ∷ opened bracket_item
    ∷ changed an_id (partial (record { start = position 0 1; end = position 0 2 }) (99 ∷ []) ∷ [])
    ∷ closed "file:///b"
    ∷ []

abbrev fresh : Workspace ℕ
fresh = new_workspace none incremental none utf16

abbrev a_platform : Platform
a_platform = record { url = file_urls; is_win = false }

abbrev ready : Server ℕ
ready = record {
  workspace = some fresh;
  trace = "off";
  is_shutdown = false;
  sync_kind = incremental;
  platform = a_platform;
}

serve-follows_example :
    (w : Workspace ℕ) × ((serve
        (λ a. true)
        no_bracket
        no_disk
        failing
        (map params_of session)
        ready).workspace
      ≡ some w)
    × ((k : String)
        → Dict.get w.text_documents k
          ≡ follow_all fresh.sync_kind fresh.position_encoding no_bracket no_disk session
              (Dict.get fresh.text_documents)
              k)
unfolding perform_all init
serve-follows_example =
    serve-follows (λ a. true) no_bracket no_disk failing (λ p t. refl) session ready fresh refl
      (reached-IsConsistent (λ a. true) no_bracket no_disk file_urls false none incremental none
        utf16 [] fresh refl)

abbrev before_initialize : Server ℕ
before_initialize = record {
  workspace = none;
  trace = "off";
  is_shutdown = false;
  sync_kind = incremental;
  platform = a_platform;
}

serve-IsSound_example : IsSound (
    serve
      (λ a. true)
      no_bracket
      no_disk
      failing
      (did_close "file:///a"
        ∷ initialize (some (47 ∷ 97 ∷ [])) none none none
        ∷ did_open an_item
        ∷ shutdown
        ∷ [])
      before_initialize)
serve-IsSound_example =
    serve-IsSound (λ a. true) no_bracket no_disk failing (λ p. Keeps-raise key_error)
      (did_close "file:///a"
        ∷ initialize (some (47 ∷ 97 ∷ [])) none none none
        ∷ did_open an_item
        ∷ shutdown
        ∷ [])
      before_initialize tt

-- A command whose handler takes the server and two values.
abbrev its_params : ℕ → List Param
its_params handler =
    record { takes_server = true; var_positional = false; ptype = none }
    ∷ record { takes_server = false; var_positional = false; ptype = some "int" }
    ∷ record { takes_server = false; var_positional = false; ptype = none }
    ∷ []

abbrev one_command : Dict String ℕ
one_command = record { entries = ("add", 7) ∷ [] }
