-- ===== src/Tests/Serving.antt =====
-- Runs of the protocol, the byte stream, the errors, the capabilities and the features
-- (pygls/protocol/json_rpc.py, io_.py, exceptions.py, capabilities.py, feature_manager.py) at concrete
-- inputs.

use pygls.Prelude.{
  ℕ, ◌≡◌, refl, String, true, false, List, [], ◌∷◌, none, some, arith, map, concat, if◌then◌else◌,
  inl, inr,
}
use pygls.Prelude.Dict
use pygls.Prelude.Dict.{Dict}
use pygls.Prelude.Eq.{string_eq}
use pygls.Prelude.Int.{neg}
use pygls.Codec.{utf16}
use pygls.Document.{incremental}
use pygls.Errors.{
  ResponseError, ErrorClass, exceptions, from_error, internal_error, parse_error, json_rpc,
  invalid_params, invalid_request, method_not_found, request_cancelled, server_error,
  content_modified, server_not_initialized, unknown_error_code, reserved_range_start,
  reserved_range_end, lsp_range_start, lsp_range_end,
}
use pygls.Errors.Codes.{IsListed, Among, IsOrder, from_error_order}
use pygls.Framing.{Bytes, frame, run}
use pygls.Framing.RoundTrip.{run-frames, run_total}
use pygls.Rpc.{id_eq}
use pygls.Capabilities.Build.Special.{first_options}
use pygls.Client.{node, end}
use pygls.Capabilities.{Builder, Types, provider_options}
use pygls.Capabilities.Build.{build}
use pygls.Capabilities.Announced.{Announces, build-Announces, build-semantic_tokens}
use pygls.Features.{
  is_blank, Func, Manager, feature, thread, after, error, add_feature, type_error,
  already_registered,
}
use text.Mathlib.Text.{◌==◌ as str_eq}
use pygls.Options.{LspTypes, egistration, check_options, get_method_options_type}
use pygls.Features.Register.{RunsInThread, thread_any_order, feature-ill_fitting}

abbrev an_error : ResponseError ℕ
an_error = record { code = neg 32050; message = "boom"; payload = some 7 }

abbrev backwards : List ErrorClass
backwards =
    server_error ∷ request_cancelled ∷ parse_error ∷ method_not_found ∷ invalid_request
    ∷ invalid_params ∷ internal_error ∷ []

backwards-IsOrder : IsOrder backwards
backwards-IsOrder = record { all = all; only = only }
  where
    all : (c : ErrorClass) → IsListed c → Among c backwards
    all server_error h = inl refl
    all request_cancelled h = inr (inl refl)
    all parse_error h = inr (inr (inl refl))
    all method_not_found h = inr (inr (inr (inl refl)))
    all invalid_request h = inr (inr (inr (inr (inl refl))))
    all invalid_params h = inr (inr (inr (inr (inr (inl refl)))))
    all internal_error h = inr (inr (inr (inr (inr (inr (inl refl))))))
    all _ h = absurd h

    only : (c : ErrorClass) → Among c backwards → IsListed c
    only server_error m = tt
    only request_cancelled m = tt
    only parse_error m = tt
    only method_not_found m = tt
    only invalid_request m = tt
    only invalid_params m = tt
    only internal_error m = tt
    only json_rpc m = ground arith
    only content_modified m = ground arith
    only server_not_initialized m = ground arith
    only unknown_error_code m = ground arith
    only reserved_range_start m = ground arith
    only reserved_range_end m = ground arith
    only lsp_range_start m = ground arith
    only lsp_range_end m = ground arith

from_error_order_example : from_error backwards an_error ≡ from_error exceptions an_error
from_error_order_example = from_error_order backwards an_error backwards-IsOrder

-- "{}" and "[]"
abbrev two_bodies : List Bytes
two_bodies = (123 ∷ 125 ∷ []) ∷ (91 ∷ 93 ∷ []) ∷ []

run-frames_example : run 8 (λ handled. false) [] 0 (concat (map frame two_bodies)) ≡ some two_bodies
run-frames_example =
    run-frames 8 (λ handled. false) [] two_bodies ((λ e. cc), ((λ e. cc), tt)) (omega arith)

run_total_example :
    (messages : List Bytes) × (run 4 (λ handled. false) [] 0 (67 ∷ 10 ∷ 13 ∷ []) ≡ some messages)
run_total_example = run_total 4 (λ handled. false) [] 0 (67 ∷ 10 ∷ 13 ∷ []) (omega arith)

abbrev the_types : Types String
the_types = record {
  default_options = λ method. method;
  set_resolve_provider = λ resolves o. if resolves then "resolving" else o;
  set_workspace_diagnostics = λ workspace o. o;
  rename_options = λ prepares. "rename";
  semantic_tokens_options = λ legend full range. legend;
  is_registration = λ o. false;
}

abbrev a_builder : Builder String
a_builder = record {
  client_capabilities = node end;
  features = "textDocument/rename" ∷ "textDocument/codeLens" ∷ "codeLens/resolve" ∷ [];
  feature_options = Dict.empty;
  commands = [];
  text_document_sync_kind = incremental;
  notebook_document_sync = none;
  position_encoding = utf16;
}

build-Announces_example : Announces the_types a_builder (build the_types a_builder)
build-Announces_example = build-Announces the_types a_builder

abbrev tokens_builder : Builder String
tokens_builder = record a_builder {
  features = "textDocument/semanticTokens/full" ∷ [];
  feature_options = record { entries = ("textDocument/semanticTokens/full", "legend") ∷ [] };
}

build-semantic_tokens_example :
    (build the_types tokens_builder).semantic_tokens_provider ≡ some "legend"
unfolding first_options Dict.get provider_options
build-semantic_tokens_example = build-semantic_tokens the_types tokens_builder

abbrev a_function : Func
a_function = record {
  is_coroutine = false;
  takes_server = true;
  in_thread = false;
  registered = none;
}

abbrev a_manager : Manager String
a_manager = record {
  heap = λ r. a_function;
  next = 1;
  builtin_features = Dict.empty;
  features = Dict.empty;
  feature_options = Dict.empty;
  commands = Dict.empty;
}

-- The registration type 0 of every method has options of type 1, which only "right" fits.
abbrev option_types : LspTypes String ℕ
option_types = record {
  options_map = λ method. none;
  methods_map = λ method. some (some 0);
  all_types = λ name. some 1;
  name_of = λ ty. 72 ∷ 82 ∷ egistration;
  unstructures = λ o ty. str_eq o "right";
}

thread_any_order_example :
    RunsInThread "hover"
      (after (thread 0 (after (feature option_types (some "hover") none 0 a_manager))))
    × RunsInThread "hover"
        (after (feature option_types (some "hover") none 0 (after (thread 0 a_manager))))
unfolding is_blank
thread_any_order_example =
    thread_any_order option_types "hover" 0 a_manager refl (Dict.get-empty {V = ℕ} "hover") refl
      refl (omega arith)

feature-ill_fitting_example :
    (feature option_types (some "hover") (some "wrong") 0 a_manager
      ≡ error type_error (add_feature 0 "hover" a_manager))
    × (feature option_types (some "hover") none 0 (add_feature 0 "hover" a_manager)
        ≡ error already_registered (add_feature 0 "hover" a_manager))
unfolding is_blank check_options get_method_options_type
feature-ill_fitting_example =
    feature-ill_fitting option_types "hover" 0 a_manager refl (Dict.get-empty {V = ℕ} "hover")
      "wrong" none 0 type_error refl
