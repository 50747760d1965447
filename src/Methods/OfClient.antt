-- ===== src/Methods/OfClient.antt =====
-- pygls/lsp/_base_client.py: `BaseLanguageClient`, with its methods by name.
use pygls.Prelude.{String, Bool, true, false, List, [], ◌∷◌}
use pygls.Rpc.Send.{Env}
use pygls.Rpc.ServerExit.{Client}
use pygls.Methods.{Called, Method}
use pygls.Methods.OfClient.Items.{
  call_hierarchy_incoming_calls, call_hierarchy_incoming_calls_async, call_hierarchy_outgoing_calls,
  call_hierarchy_outgoing_calls_async, code_action_resolve, code_action_resolve_async,
  code_lens_resolve, code_lens_resolve_async, completion_item_resolve,
  completion_item_resolve_async, document_link_resolve, document_link_resolve_async, initialize,
  initialize_async, inlay_hint_resolve, inlay_hint_resolve_async, shutdown, shutdown_async,
}
use pygls.Methods.OfClient.Documents.{
  text_document_code_action, text_document_code_action_async, text_document_code_lens,
  text_document_code_lens_async, text_document_color_presentation,
  text_document_color_presentation_async, text_document_completion, text_document_completion_async,
  text_document_declaration, text_document_declaration_async, text_document_definition,
  text_document_definition_async, text_document_diagnostic, text_document_diagnostic_async,
  text_document_document_color, text_document_document_color_async,
  text_document_document_highlight, text_document_document_highlight_async,
  text_document_document_link, text_document_document_link_async, text_document_document_symbol,
  text_document_document_symbol_async, text_document_folding_range,
  text_document_folding_range_async, text_document_formatting, text_document_formatting_async,
  text_document_hover, text_document_hover_async, text_document_implementation,
  text_document_implementation_async,
}
use pygls.Methods.OfClient.Places.{
  text_document_inlay_hint, text_document_inlay_hint_async, text_document_inline_completion,
  text_document_inline_completion_async, text_document_inline_value,
  text_document_inline_value_async, text_document_linked_editing_range,
  text_document_linked_editing_range_async, text_document_moniker, text_document_moniker_async,
  text_document_on_type_formatting, text_document_on_type_formatting_async,
  text_document_prepare_call_hierarchy, text_document_prepare_call_hierarchy_async,
  text_document_prepare_rename, text_document_prepare_rename_async,
  text_document_prepare_type_hierarchy, text_document_prepare_type_hierarchy_async,
}
use pygls.Methods.OfClient.Edits.{
  text_document_ranges_formatting, text_document_ranges_formatting_async,
  text_document_range_formatting, text_document_range_formatting_async, text_document_references,
  text_document_references_async, text_document_rename, text_document_rename_async,
  text_document_selection_range, text_document_selection_range_async,
  text_document_semantic_tokens_full, text_document_semantic_tokens_full_async,
  text_document_semantic_tokens_full_delta, text_document_semantic_tokens_full_delta_async,
  text_document_semantic_tokens_range, text_document_semantic_tokens_range_async,
  text_document_signature_help, text_document_signature_help_async, text_document_type_definition,
  text_document_type_definition_async, text_document_will_save_wait_until,
  text_document_will_save_wait_until_async,
}
use pygls.Methods.OfClient.Spaces.{
  type_hierarchy_subtypes, type_hierarchy_subtypes_async, type_hierarchy_supertypes,
  type_hierarchy_supertypes_async, workspace_diagnostic, workspace_diagnostic_async,
  workspace_execute_command, workspace_execute_command_async, workspace_symbol,
  workspace_symbol_async, workspace_symbol_resolve, workspace_symbol_resolve_async,
  workspace_text_document_content, workspace_text_document_content_async,
  workspace_will_create_files, workspace_will_create_files_async, workspace_will_delete_files,
  workspace_will_delete_files_async, workspace_will_rename_files, workspace_will_rename_files_async,
}
use pygls.Methods.OfClient.Notices.{
  cancel_request, exit, initialized, notebook_document_did_change, notebook_document_did_close,
  notebook_document_did_open, notebook_document_did_save, progress, set_trace,
  text_document_did_change, text_document_did_close, text_document_did_open, text_document_did_save,
  text_document_will_save, window_work_done_progress_cancel, workspace_did_change_configuration,
  workspace_did_change_watched_files, workspace_did_change_workspace_folders,
  workspace_did_create_files, workspace_did_delete_files, workspace_did_rename_files,
}
pub mod Items
pub mod Documents
pub mod Places
pub mod Edits
pub mod Spaces
pub mod Notices

module _ {A : Type 0} (env : Env A) where
  unfoldable pub base_language_client : List (String × Method A (Client A))
  base_language_client =
      ("call_hierarchy_incoming_calls", call_hierarchy_incoming_calls env)
      ∷ ("call_hierarchy_incoming_calls_async", call_hierarchy_incoming_calls_async env)
      ∷ ("call_hierarchy_outgoing_calls", call_hierarchy_outgoing_calls env)
      ∷ ("call_hierarchy_outgoing_calls_async", call_hierarchy_outgoing_calls_async env)
      ∷ ("code_action_resolve", code_action_resolve env)
      ∷ ("code_action_resolve_async", code_action_resolve_async env)
      ∷ ("code_lens_resolve", code_lens_resolve env)
      ∷ ("code_lens_resolve_async", code_lens_resolve_async env)
      ∷ ("completion_item_resolve", completion_item_resolve env)
      ∷ ("completion_item_resolve_async", completion_item_resolve_async env)
      ∷ ("document_link_resolve", document_link_resolve env)
      ∷ ("document_link_resolve_async", document_link_resolve_async env)
      ∷ ("initialize", initialize env)
      ∷ ("initialize_async", initialize_async env)
      ∷ ("inlay_hint_resolve", inlay_hint_resolve env)
      ∷ ("inlay_hint_resolve_async", inlay_hint_resolve_async env)
      ∷ ("shutdown", shutdown env)
      ∷ ("shutdown_async", shutdown_async env)
      ∷ ("text_document_code_action", text_document_code_action env)
      ∷ ("text_document_code_action_async", text_document_code_action_async env)
      ∷ ("text_document_code_lens", text_document_code_lens env)
      ∷ ("text_document_code_lens_async", text_document_code_lens_async env)
      ∷ ("text_document_color_presentation", text_document_color_presentation env)
      ∷ ("text_document_color_presentation_async", text_document_color_presentation_async env)
      ∷ ("text_document_completion", text_document_completion env)
      ∷ ("text_document_completion_async", text_document_completion_async env)
      ∷ ("text_document_declaration", text_document_declaration env)
      ∷ ("text_document_declaration_async", text_document_declaration_async env)
      ∷ ("text_document_definition", text_document_definition env)
      ∷ ("text_document_definition_async", text_document_definition_async env)
      ∷ ("text_document_diagnostic", text_document_diagnostic env)
      ∷ ("text_document_diagnostic_async", text_document_diagnostic_async env)
      ∷ ("text_document_document_color", text_document_document_color env)
      ∷ ("text_document_document_color_async", text_document_document_color_async env)
      ∷ ("text_document_document_highlight", text_document_document_highlight env)
      ∷ ("text_document_document_highlight_async", text_document_document_highlight_async env)
      ∷ ("text_document_document_link", text_document_document_link env)
      ∷ ("text_document_document_link_async", text_document_document_link_async env)
      ∷ ("text_document_document_symbol", text_document_document_symbol env)
      ∷ ("text_document_document_symbol_async", text_document_document_symbol_async env)
      ∷ ("text_document_folding_range", text_document_folding_range env)
      ∷ ("text_document_folding_range_async", text_document_folding_range_async env)
      ∷ ("text_document_formatting", text_document_formatting env)
      ∷ ("text_document_formatting_async", text_document_formatting_async env)
      ∷ ("text_document_hover", text_document_hover env)
      ∷ ("text_document_hover_async", text_document_hover_async env)
      ∷ ("text_document_implementation", text_document_implementation env)
      ∷ ("text_document_implementation_async", text_document_implementation_async env)
      ∷ ("text_document_inlay_hint", text_document_inlay_hint env)
      ∷ ("text_document_inlay_hint_async", text_document_inlay_hint_async env)
      ∷ ("text_document_inline_completion", text_document_inline_completion env)
      ∷ ("text_document_inline_completion_async", text_document_inline_completion_async env)
      ∷ ("text_document_inline_value", text_document_inline_value env)
      ∷ ("text_document_inline_value_async", text_document_inline_value_async env)
      ∷ ("text_document_linked_editing_range", text_document_linked_editing_range env)
      ∷ ("text_document_linked_editing_range_async", text_document_linked_editing_range_async env)
      ∷ ("text_document_moniker", text_document_moniker env)
      ∷ ("text_document_moniker_async", text_document_moniker_async env)
      ∷ ("text_document_on_type_formatting", text_document_on_type_formatting env)
      ∷ ("text_document_on_type_formatting_async", text_document_on_type_formatting_async env)
      ∷ ("text_document_prepare_call_hierarchy", text_document_prepare_call_hierarchy env)
      ∷ (
        "text_document_prepare_call_hierarchy_async",
        text_document_prepare_call_hierarchy_async env,
      )
      ∷ ("text_document_prepare_rename", text_document_prepare_rename env)
      ∷ ("text_document_prepare_rename_async", text_document_prepare_rename_async env)
      ∷ ("text_document_prepare_type_hierarchy", text_document_prepare_type_hierarchy env)
      ∷ (
        "text_document_prepare_type_hierarchy_async",
        text_document_prepare_type_hierarchy_async env,
      )
      ∷ ("text_document_ranges_formatting", text_document_ranges_formatting env)
      ∷ ("text_document_ranges_formatting_async", text_document_ranges_formatting_async env)
      ∷ ("text_document_range_formatting", text_document_range_formatting env)
      ∷ ("text_document_range_formatting_async", text_document_range_formatting_async env)
      ∷ ("text_document_references", text_document_references env)
      ∷ ("text_document_references_async", text_document_references_async env)
      ∷ ("text_document_rename", text_document_rename env)
      ∷ ("text_document_rename_async", text_document_rename_async env)
      ∷ ("text_document_selection_range", text_document_selection_range env)
      ∷ ("text_document_selection_range_async", text_document_selection_range_async env)
      ∷ ("text_document_semantic_tokens_full", text_document_semantic_tokens_full env)
      ∷ ("text_document_semantic_tokens_full_async", text_document_semantic_tokens_full_async env)
      ∷ ("text_document_semantic_tokens_full_delta", text_document_semantic_tokens_full_delta env)
      ∷ (
        "text_document_semantic_tokens_full_delta_async",
        text_document_semantic_tokens_full_delta_async env,
      )
      ∷ ("text_document_semantic_tokens_range", text_document_semantic_tokens_range env)
      ∷ ("text_document_semantic_tokens_range_async", text_document_semantic_tokens_range_async env)
      ∷ ("text_document_signature_help", text_document_signature_help env)
      ∷ ("text_document_signature_help_async", text_document_signature_help_async env)
      ∷ ("text_document_type_definition", text_document_type_definition env)
      ∷ ("text_document_type_definition_async", text_document_type_definition_async env)
      ∷ ("text_document_will_save_wait_until", text_document_will_save_wait_until env)
      ∷ ("text_document_will_save_wait_until_async", text_document_will_save_wait_until_async env)
      ∷ ("type_hierarchy_subtypes", type_hierarchy_subtypes env)
      ∷ ("type_hierarchy_subtypes_async", type_hierarchy_subtypes_async env)
      ∷ ("type_hierarchy_supertypes", type_hierarchy_supertypes env)
      ∷ ("type_hierarchy_supertypes_async", type_hierarchy_supertypes_async env)
      ∷ ("workspace_diagnostic", workspace_diagnostic env)
      ∷ ("workspace_diagnostic_async", workspace_diagnostic_async env)
      ∷ ("workspace_execute_command", workspace_execute_command env)
      ∷ ("workspace_execute_command_async", workspace_execute_command_async env)
      ∷ ("workspace_symbol", workspace_symbol env)
      ∷ ("workspace_symbol_async", workspace_symbol_async env)
      ∷ ("workspace_symbol_resolve", workspace_symbol_resolve env)
      ∷ ("workspace_symbol_resolve_async", workspace_symbol_resolve_async env)
      ∷ ("workspace_text_document_content", workspace_text_document_content env)
      ∷ ("workspace_text_document_content_async", workspace_text_document_content_async env)
      ∷ ("workspace_will_create_files", workspace_will_create_files env)
      ∷ ("workspace_will_create_files_async", workspace_will_create_files_async env)
      ∷ ("workspace_will_delete_files", workspace_will_delete_files env)
      ∷ ("workspace_will_delete_files_async", workspace_will_delete_files_async env)
      ∷ ("workspace_will_rename_files", workspace_will_rename_files env)
      ∷ ("workspace_will_rename_files_async", workspace_will_rename_files_async env)
      ∷ ("cancel_request", cancel_request env)
      ∷ ("exit", exit env)
      ∷ ("initialized", initialized env)
      ∷ ("notebook_document_did_change", notebook_document_did_change env)
      ∷ ("notebook_document_did_close", notebook_document_did_close env)
      ∷ ("notebook_document_did_open", notebook_document_did_open env)
      ∷ ("notebook_document_did_save", notebook_document_did_save env)
      ∷ ("progress", progress env)
      ∷ ("set_trace", set_trace env)
      ∷ ("text_document_did_change", text_document_did_change env)
      ∷ ("text_document_did_close", text_document_did_close env)
      ∷ ("text_document_did_open", text_document_did_open env)
      ∷ ("text_document_did_save", text_document_did_save env)
      ∷ ("text_document_will_save", text_document_will_save env)
      ∷ ("window_work_done_progress_cancel", window_work_done_progress_cancel env)
      ∷ ("workspace_did_change_configuration", workspace_did_change_configuration env)
      ∷ ("workspace_did_change_watched_files", workspace_did_change_watched_files env)
      ∷ ("workspace_did_change_workspace_folders", workspace_did_change_workspace_folders env)
      ∷ ("workspace_did_create_files", workspace_did_create_files env)
      ∷ ("workspace_did_delete_files", workspace_did_delete_files env)
      ∷ ("workspace_did_rename_files", workspace_did_rename_files env)
      ∷ []
