-- ===== src/Capabilities/Build/Editing.antt =====
-- pygls/capabilities.py: the `_with_…` methods of `ServerCapabilitiesBuilder`, from document links on.
use pygls.Prelude.{true, none, some}
use pygls.Prelude.Eq.{string_eq}
use pygls.Capabilities.{
  bool, object, Types, ServerCapabilities, Builder, provider_options, set_provider, with_resolve,
  with_workspace_diagnostics,
}

module _ {O : Type 0} (types : Types O) (b : Builder O) where
  unfoldable pub with_document_link : ServerCapabilities O → ServerCapabilities O
  with_document_link c = record c {
    document_link_provider =
        set_provider
          (with_resolve types b "documentLink/resolve" (
            provider_options b "textDocument/documentLink"
              (some (object (types.default_options "textDocument/documentLink")))))
          c.document_link_provider;
  }

  unfoldable pub with_color : ServerCapabilities O → ServerCapabilities O
  with_color c = record c {
    color_provider =
        set_provider (provider_options b "textDocument/documentColor" (some (bool true)))
          c.color_provider;
  }

  unfoldable pub with_document_formatting : ServerCapabilities O → ServerCapabilities O
  with_document_formatting c = record c {
    document_formatting_provider =
        set_provider (provider_options b "textDocument/formatting" (some (bool true)))
          c.document_formatting_provider;
  }

  unfoldable pub with_document_range_formatting : ServerCapabilities O → ServerCapabilities O
  with_document_range_formatting c = record c {
    document_range_formatting_provider =
        set_provider (provider_options b "textDocument/rangeFormatting" (some (bool true)))
          c.document_range_formatting_provider;
  }

  unfoldable pub with_document_on_type_formatting : ServerCapabilities O → ServerCapabilities O
  with_document_on_type_formatting c = record c {
    document_on_type_formatting_provider =
        set_provider (provider_options b "textDocument/onTypeFormatting" none)
          c.document_on_type_formatting_provider;
  }

  unfoldable pub with_folding_range : ServerCapabilities O → ServerCapabilities O
  with_folding_range c = record c {
    folding_range_provider =
        set_provider (provider_options b "textDocument/foldingRange" (some (bool true)))
          c.folding_range_provider;
  }

  unfoldable pub with_selection_range : ServerCapabilities O → ServerCapabilities O
  with_selection_range c = record c {
    selection_range_provider =
        set_provider (provider_options b "textDocument/selectionRange" (some (bool true)))
          c.selection_range_provider;
  }

  unfoldable pub with_call_hierarchy : ServerCapabilities O → ServerCapabilities O
  with_call_hierarchy c = record c {
    call_hierarchy_provider =
        set_provider (provider_options b "textDocument/prepareCallHierarchy" (some (bool true)))
          c.call_hierarchy_provider;
  }

  unfoldable pub with_type_hierarchy : ServerCapabilities O → ServerCapabilities O
  with_type_hierarchy c = record c {
    type_hierarchy_provider =
        set_provider (provider_options b "textDocument/prepareTypeHierarchy" (some (bool true)))
          c.type_hierarchy_provider;
  }

  unfoldable pub with_linked_editing_range : ServerCapabilities O → ServerCapabilities O
  with_linked_editing_range c = record c {
    linked_editing_range_provider =
        set_provider (provider_options b "textDocument/linkedEditingRange" (some (bool true)))
          c.linked_editing_range_provider;
  }

  unfoldable pub with_moniker : ServerCapabilities O → ServerCapabilities O
  with_moniker c = record c {
    moniker_provider =
        set_provider (provider_options b "textDocument/moniker" (some (bool true)))
          c.moniker_provider;
  }

  unfoldable pub with_workspace_symbol : ServerCapabilities O → ServerCapabilities O
  with_workspace_symbol c = record c {
    workspace_symbol_provider =
        set_provider
          (with_resolve types b "workspaceSymbol/resolve" (
            provider_options b "workspace/symbol"
              (some (object (types.default_options "workspace/symbol")))))
          c.workspace_symbol_provider;
  }

  unfoldable pub with_diagnostic_provider : ServerCapabilities O → ServerCapabilities O
  with_diagnostic_provider c = record c {
    diagnostic_provider =
        set_provider
          (with_workspace_diagnostics types b (
            provider_options b "textDocument/diagnostic"
              (some (object (types.default_options "textDocument/diagnostic")))))
          c.diagnostic_provider;
  }

  unfoldable pub with_inline_value_provider : ServerCapabilities O → ServerCapabilities O
  with_inline_value_provider c = record c {
    inline_value_provider =
        set_provider (provider_options b "textDocument/inlineValue" (some (bool true)))
          c.inline_value_provider;
  }

  unfoldable pub with_inline_completion_provider : ServerCapabilities O → ServerCapabilities O
  with_inline_completion_provider c = record c {
    inline_completion_provider =
        set_provider (provider_options b "textDocument/inlineCompletion" none)
          c.inline_completion_provider;
  }
