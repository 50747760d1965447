-- ===== src/Capabilities/Build.antt =====
-- pygls/capabilities.py: `ServerCapabilitiesBuilder.build`, over the `_with_…` methods below.
pub mod Languages
pub mod Editing
pub mod Special
use pygls.Prelude.{Option, none}
use pygls.Capabilities.{Types, Builder, ServerCapabilities}

-- types.ServerCapabilities(), with the position encoding
abbrev pub initial : {O : Type 0} → Builder O → ServerCapabilities O
initial b = record {
  position_encoding = b.position_encoding;
  text_document_sync = none;
  notebook_document_sync = none;
  completion_provider = none;
  hover_provider = none;
  signature_help_provider = none;
  declaration_provider = none;
  definition_provider = none;
  type_definition_provider = none;
  inlay_hint_provider = none;
  implementation_provider = none;
  references_provider = none;
  document_highlight_provider = none;
  document_symbol_provider = none;
  code_action_provider = none;
  code_lens_provider = none;
  document_link_provider = none;
  color_provider = none;
  document_formatting_provider = none;
  document_range_formatting_provider = none;
  document_on_type_formatting_provider = none;
  folding_range_provider = none;
  selection_range_provider = none;
  call_hierarchy_provider = none;
  type_hierarchy_provider = none;
  linked_editing_range_provider = none;
  moniker_provider = none;
  workspace_symbol_provider = none;
  diagnostic_provider = none;
  inline_value_provider = none;
  inline_completion_provider = none;
  rename_provider = none;
  execute_command_provider = none;
  semantic_tokens_provider = none;
  workspace = none;
}

module _ {O : Type 0} (types : Types O) (b : Builder O) where
  unfoldable pub build : ServerCapabilities O
  unfolding Special.with_text_document_sync Special.with_notebook_document_sync
      Languages.with_completion Languages.with_hover Languages.with_signature_help
      Languages.with_declaration Languages.with_definition Languages.with_type_definition
      Languages.with_inlay_hints Languages.with_implementation Languages.with_references
      Languages.with_document_highlight Languages.with_document_symbol Languages.with_code_action
      Languages.with_code_lens Editing.with_document_link Editing.with_color
      Editing.with_document_formatting Editing.with_document_range_formatting
      Editing.with_document_on_type_formatting Special.with_rename Editing.with_folding_range
      Special.with_execute_command Editing.with_selection_range Editing.with_call_hierarchy
      Editing.with_type_hierarchy Special.with_semantic_tokens Editing.with_linked_editing_range
      Editing.with_moniker Editing.with_workspace_symbol Special.with_workspace_capabilities
      Editing.with_diagnostic_provider Editing.with_inline_value_provider
      Editing.with_inline_completion_provider
  build = Editing.with_inline_completion_provider types b (
      Editing.with_inline_value_provider types b (
        Editing.with_diagnostic_provider types b (
          Special.with_workspace_capabilities types b (
            Editing.with_workspace_symbol types b (
              Editing.with_moniker types b (
                Editing.with_linked_editing_range types b (
                  Special.with_semantic_tokens types b (
                    Editing.with_type_hierarchy types b (
                      Editing.with_call_hierarchy types b (
                        Editing.with_selection_range types b (
                          Special.with_execute_command types b (
                            Editing.with_folding_range types b (
                              Special.with_rename types b (
                                Editing.with_document_on_type_formatting types b (
                                  Editing.with_document_range_formatting types b (
                                    Editing.with_document_formatting types b (
                                      Editing.with_color types b (
                                        Editing.with_document_link types b (
                                          Languages.with_code_lens types b (
                                            Languages.with_code_action types b (
                                              Languages.with_document_symbol types b (
                                                Languages.with_document_highlight types b (
                                                  Languages.with_references types b (
                                                    Languages.with_implementation types b (
                                                      Languages.with_inlay_hints types b (
                                                        Languages.with_type_definition types b (
                                                          Languages.with_definition types b (
                                                            Languages.with_declaration types b (
                                                            Languages.with_signature_help types b (
                                                            Languages.with_hover types b (
                                                            Languages.with_completion types b (
                                                            Special.with_notebook_document_sync
                                                            types b
                                                            (Special.with_text_document_sync types b
                                                            (initial
                                                            b))))))))))))))))))))))))))))))))))
