-- ===== src/Methods/OfServer.antt =====
-- pygls/lsp/_base_server.py: `BaseLanguageServer`, with its methods by name.
use pygls.Prelude.{String, List, [], ◌∷◌}
use pygls.Rpc.{Protocol}
use pygls.Rpc.Send.{Env}
use pygls.Methods.{Method, send, send_async, send_notification}

module _ {A : Type 0} (env : Env A) where
  abbrev pub client_register_capability : Method A (Protocol A)
  client_register_capability params = send env "client/registerCapability" params

  abbrev pub client_register_capability_async : Method A (Protocol A)
  client_register_capability_async params = send_async env "client/registerCapability" params

  abbrev pub client_unregister_capability : Method A (Protocol A)
  client_unregister_capability params = send env "client/unregisterCapability" params

  abbrev pub client_unregister_capability_async : Method A (Protocol A)
  client_unregister_capability_async params = send_async env "client/unregisterCapability" params

  abbrev pub window_show_document : Method A (Protocol A)
  window_show_document params = send env "window/showDocument" params

  abbrev pub window_show_document_async : Method A (Protocol A)
  window_show_document_async params = send_async env "window/showDocument" params

  abbrev pub window_show_message_request : Method A (Protocol A)
  window_show_message_request params = send env "window/showMessageRequest" params

  abbrev pub window_show_message_request_async : Method A (Protocol A)
  window_show_message_request_async params = send_async env "window/showMessageRequest" params

  abbrev pub window_work_done_progress_create : Method A (Protocol A)
  window_work_done_progress_create params = send env "window/workDoneProgress/create" params

  abbrev pub window_work_done_progress_create_async : Method A (Protocol A)
  window_work_done_progress_create_async params =
      send_async env "window/workDoneProgress/create" params

  abbrev pub workspace_apply_edit : Method A (Protocol A)
  workspace_apply_edit params = send env "workspace/applyEdit" params

  abbrev pub workspace_apply_edit_async : Method A (Protocol A)
  workspace_apply_edit_async params = send_async env "workspace/applyEdit" params

  abbrev pub workspace_code_lens_refresh : Method A (Protocol A)
  workspace_code_lens_refresh params = send env "workspace/codeLens/refresh" params

  abbrev pub workspace_code_lens_refresh_async : Method A (Protocol A)
  workspace_code_lens_refresh_async params = send_async env "workspace/codeLens/refresh" params

  abbrev pub workspace_configuration : Method A (Protocol A)
  workspace_configuration params = send env "workspace/configuration" params

  abbrev pub workspace_configuration_async : Method A (Protocol A)
  workspace_configuration_async params = send_async env "workspace/configuration" params

  abbrev pub workspace_diagnostic_refresh : Method A (Protocol A)
  workspace_diagnostic_refresh params = send env "workspace/diagnostic/refresh" params

  abbrev pub workspace_diagnostic_refresh_async : Method A (Protocol A)
  workspace_diagnostic_refresh_async params = send_async env "workspace/diagnostic/refresh" params

  abbrev pub workspace_folding_range_refresh : Method A (Protocol A)
  workspace_folding_range_refresh params = send env "workspace/foldingRange/refresh" params

  abbrev pub workspace_folding_range_refresh_async : Method A (Protocol A)
  workspace_folding_range_refresh_async params =
      send_async env "workspace/foldingRange/refresh" params

  abbrev pub workspace_inlay_hint_refresh : Method A (Protocol A)
  workspace_inlay_hint_refresh params = send env "workspace/inlayHint/refresh" params

  abbrev pub workspace_inlay_hint_refresh_async : Method A (Protocol A)
  workspace_inlay_hint_refresh_async params = send_async env "workspace/inlayHint/refresh" params

  abbrev pub workspace_inline_value_refresh : Method A (Protocol A)
  workspace_inline_value_refresh params = send env "workspace/inlineValue/refresh" params

  abbrev pub workspace_inline_value_refresh_async : Method A (Protocol A)
  workspace_inline_value_refresh_async params =
      send_async env "workspace/inlineValue/refresh" params

  abbrev pub workspace_semantic_tokens_refresh : Method A (Protocol A)
  workspace_semantic_tokens_refresh params = send env "workspace/semanticTokens/refresh" params

  abbrev pub workspace_semantic_tokens_refresh_async : Method A (Protocol A)
  workspace_semantic_tokens_refresh_async params =
      send_async env "workspace/semanticTokens/refresh" params

  abbrev pub workspace_text_document_content_refresh : Method A (Protocol A)
  workspace_text_document_content_refresh params =
      send env "workspace/textDocumentContent/refresh" params

  abbrev pub workspace_text_document_content_refresh_async : Method A (Protocol A)
  workspace_text_document_content_refresh_async params =
      send_async env "workspace/textDocumentContent/refresh" params

  abbrev pub workspace_workspace_folders : Method A (Protocol A)
  workspace_workspace_folders params = send env "workspace/workspaceFolders" params

  abbrev pub workspace_workspace_folders_async : Method A (Protocol A)
  workspace_workspace_folders_async params = send_async env "workspace/workspaceFolders" params

  abbrev pub cancel_request : Method A (Protocol A)
  cancel_request params = send_notification env "$/cancelRequest" params

  abbrev pub log_trace : Method A (Protocol A)
  log_trace params = send_notification env "$/logTrace" params

  abbrev pub progress : Method A (Protocol A)
  progress params = send_notification env "$/progress" params

  abbrev pub telemetry_event : Method A (Protocol A)
  telemetry_event params = send_notification env "telemetry/event" params

  abbrev pub text_document_publish_diagnostics : Method A (Protocol A)
  text_document_publish_diagnostics params =
      send_notification env "textDocument/publishDiagnostics" params

  abbrev pub window_log_message : Method A (Protocol A)
  window_log_message params = send_notification env "window/logMessage" params

  abbrev pub window_show_message : Method A (Protocol A)
  window_show_message params = send_notification env "window/showMessage" params

  unfoldable pub base_language_server : List (String × Method A (Protocol A))
  base_language_server =
      ("client_register_capability", client_register_capability)
      ∷ ("client_register_capability_async", client_register_capability_async)
      ∷ ("client_unregister_capability", client_unregister_capability)
      ∷ ("client_unregister_capability_async", client_unregister_capability_async)
      ∷ ("window_show_document", window_show_document)
      ∷ ("window_show_document_async", window_show_document_async)
      ∷ ("window_show_message_request", window_show_message_request)
      ∷ ("window_show_message_request_async", window_show_message_request_async)
      ∷ ("window_work_done_progress_create", window_work_done_progress_create)
      ∷ ("window_work_done_progress_create_async", window_work_done_progress_create_async)
      ∷ ("workspace_apply_edit", workspace_apply_edit)
      ∷ ("workspace_apply_edit_async", workspace_apply_edit_async)
      ∷ ("workspace_code_lens_refresh", workspace_code_lens_refresh)
      ∷ ("workspace_code_lens_refresh_async", workspace_code_lens_refresh_async)
      ∷ ("workspace_configuration", workspace_configuration)
      ∷ ("workspace_configuration_async", workspace_configuration_async)
      ∷ ("workspace_diagnostic_refresh", workspace_diagnostic_refresh)
      ∷ ("workspace_diagnostic_refresh_async", workspace_diagnostic_refresh_async)
      ∷ ("workspace_folding_range_refresh", workspace_folding_range_refresh)
      ∷ ("workspace_folding_range_refresh_async", workspace_folding_range_refresh_async)
      ∷ ("workspace_inlay_hint_refresh", workspace_inlay_hint_refresh)
      ∷ ("workspace_inlay_hint_refresh_async", workspace_inlay_hint_refresh_async)
      ∷ ("workspace_inline_value_refresh", workspace_inline_value_refresh)
      ∷ ("workspace_inline_value_refresh_async", workspace_inline_value_refresh_async)
      ∷ ("workspace_semantic_tokens_refresh", workspace_semantic_tokens_refresh)
      ∷ ("workspace_semantic_tokens_refresh_async", workspace_semantic_tokens_refresh_async)
      ∷ ("workspace_text_document_content_refresh", workspace_text_document_content_refresh)
      ∷ (
        "workspace_text_document_content_refresh_async",
        workspace_text_document_content_refresh_async,
      )
      ∷ ("workspace_workspace_folders", workspace_workspace_folders)
      ∷ ("workspace_workspace_folders_async", workspace_workspace_folders_async)
      ∷ ("cancel_request", cancel_request)
      ∷ ("log_trace", log_trace)
      ∷ ("progress", progress)
      ∷ ("telemetry_event", telemetry_event)
      ∷ ("text_document_publish_diagnostics", text_document_publish_diagnostics)
      ∷ ("window_log_message", window_log_message)
      ∷ ("window_show_message", window_show_message)
      ∷ []
