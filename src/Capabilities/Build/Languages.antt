-- ===== src/Capabilities/Build/Languages.antt =====
-- pygls/capabilities.py: the `_with_…` methods of `ServerCapabilitiesBuilder`, for the features of a text document, up to code lenses.
use pygls.Prelude.{true, some}
use pygls.Prelude.Eq.{string_eq}
use pygls.Capabilities.{
  bool, object, Types, ServerCapabilities, Builder, provider_options, set_provider, with_resolve,
}

module _ {O : Type 0} (types : Types O) (b : Builder O) where
  unfoldable pub with_completion : ServerCapabilities O → ServerCapabilities O
  with_completion c = record c {
    completion_provider =
        set_provider
          (provider_options b "textDocument/completion"
            (some (object (types.default_options "textDocument/completion"))))
          c.completion_provider;
  }

  unfoldable pub with_hover : ServerCapabilities O → ServerCapabilities O
  with_hover c = record c {
    hover_provider =
        set_provider (provider_options b "textDocument/hover" (some (bool true))) c.hover_provider;
  }

  unfoldable pub with_signature_help : ServerCapabilities O → ServerCapabilities O
  with_signature_help c = record c {
    signature_help_provider =
        set_provider
          (provider_options b "textDocument/signatureHelp"
            (some (object (types.default_options "textDocument/signatureHelp"))))
          c.signature_help_provider;
  }

  unfoldable pub with_declaration : ServerCapabilities O → ServerCapabilities O
  with_declaration c = record c {
    declaration_provider =
        set_provider (provider_options b "textDocument/declaration" (some (bool true)))
          c.declaration_provider;
  }

  unfoldable pub with_definition : ServerCapabilities O → ServerCapabilities O
  with_definition c = record c {
    definition_provider =
        set_provider (provider_options b "textDocument/definition" (some (bool true)))
          c.definition_provider;
  }

  unfoldable pub with_type_definition : ServerCapabilities O → ServerCapabilities O
  with_type_definition c = record c {
    type_definition_provider =
        set_provider (provider_options b "textDocument/typeDefinition" (some (bool true)))
          c.type_definition_provider;
  }

  unfoldable pub with_inlay_hints : ServerCapabilities O → ServerCapabilities O
  with_inlay_hints c = record c {
    inlay_hint_provider =
        set_provider
          (with_resolve types b "inlayHint/resolve" (
            provider_options b "textDocument/inlayHint"
              (some (object (types.default_options "textDocument/inlayHint")))))
          c.inlay_hint_provider;
  }

  unfoldable pub with_implementation : ServerCapabilities O → ServerCapabilities O
  with_implementation c = record c {
    implementation_provider =
        set_provider (provider_options b "textDocument/implementation" (some (bool true)))
          c.implementation_provider;
  }

  unfoldable pub with_references : ServerCapabilities O → ServerCapabilities O
  with_references c = record c {
    references_provider =
        set_provider (provider_options b "textDocument/references" (some (bool true)))
          c.references_provider;
  }

  unfoldable pub with_document_highlight : ServerCapabilities O → ServerCapabilities O
  with_document_highlight c = record c {
    document_highlight_provider =
        set_provider (provider_options b "textDocument/documentHighlight" (some (bool true)))
          c.document_highlight_provider;
  }

  unfoldable pub with_document_symbol : ServerCapabilities O → ServerCapabilities O
  with_document_symbol c = record c {
    document_symbol_provider =
        set_provider (provider_options b "textDocument/documentSymbol" (some (bool true)))
          c.document_symbol_provider;
  }

  unfoldable pub with_code_action : ServerCapabilities O → ServerCapabilities O
  with_code_action c = record c {
    code_action_provider =
        set_provider (provider_options b "textDocument/codeAction" (some (bool true)))
          c.code_action_provider;
  }

  unfoldable pub with_code_lens : ServerCapabilities O → ServerCapabilities O
  with_code_lens c = record c {
    code_lens_provider =
        set_provider
          (with_resolve types b "codeLens/resolve" (
            provider_options b "textDocument/codeLens"
              (some (object (types.default_options "textDocument/codeLens")))))
          c.code_lens_provider;
  }
