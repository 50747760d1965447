-- ===== src/Capabilities/Announced.antt =====
-- What `build` announces: each feature by its own registration and options, whatever else is
-- registered.
use pygls.Prelude.{String, ◌≡◌, true, false, [], ◌∷◌, Option, none, some, arith, if◌then◌else◌}
use mathlib.Core.Option
use pygls.Prelude.Eq.{string_eq}
use pygls.Prelude.Dict
use pygls.Client.{get_capability, is_true, Value}
use pygls.Capabilities.{
  Provider, bool, object, unsupported, supported, delta, Types, ServerCapabilities, Builder, has,
  provider_options, set_provider, with_resolve, with_workspace_diagnostics,
}
use pygls.Capabilities.Build.{build}
use pygls.Capabilities.Build.Special.{first_options, full_support}

module _ {O : Type 0} where
  -- What is announced for a feature: its options, or a default, if it is registered.
  abbrev pub expected : Builder O → String → Option (Provider O) → Option (Provider O)
  expected b feature default =
      if has b.features feature
      then (elim (Dict.get b.feature_options feature) [ none ↦ default | some o ↦ some (object o) ])
      else none

  -- The same for an object on which a field is set.
  abbrev pub expected_object : Builder O → String → O → (O → O) → Option (Provider O)
  expected_object b feature default set =
      if has b.features feature
      then some (object (set (Option.get_or (Dict.get b.feature_options feature) default)))
      else none

  provider :
      (b : Builder O) (f : String) (d : Option (Provider O))
      → set_provider (provider_options b f d) none ≡ expected b f d
  unfolding provider_options
  provider b f none = ground arith
  provider b f (some d) = ground arith

module _ {O : Type 0} (types : Types O) (b : Builder O) (f : String) where
  resolving :
      (g : String)
      → set_provider
          (with_resolve types b g (provider_options b f (some (object (types.default_options f)))))
          none
        ≡ expected_object b f
            (types.default_options f)
            (types.set_resolve_provider (has b.features g))
  unfolding provider_options
  resolving g = ground arith

  diagnosing :
      set_provider
        (with_workspace_diagnostics types b
          (provider_options b f (some (object (types.default_options f)))))
        none
      ≡ expected_object b f
          (types.default_options f)
          (types.set_workspace_diagnostics (has b.features "workspace/diagnostic"))
  unfolding provider_options
  diagnosing = ground arith

pub record Announces {O : Type 0} (types : Types O) (b : Builder O) (c : ServerCapabilities O)
    : Type 0 where
  pub completion :
      c.completion_provider
      ≡ expected b "textDocument/completion"
          (some (object (types.default_options "textDocument/completion")))
  pub hover : c.hover_provider ≡ expected b "textDocument/hover" (some (bool true))
  pub signature_help :
      c.signature_help_provider
      ≡ expected b "textDocument/signatureHelp"
          (some (object (types.default_options "textDocument/signatureHelp")))
  pub declaration :
      c.declaration_provider ≡ expected b "textDocument/declaration" (some (bool true))
  pub definition : c.definition_provider ≡ expected b "textDocument/definition" (some (bool true))
  pub type_definition :
      c.type_definition_provider ≡ expected b "textDocument/typeDefinition" (some (bool true))
  pub inlay_hints :
      c.inlay_hint_provider
      ≡ expected_object b "textDocument/inlayHint"
          (types.default_options "textDocument/inlayHint")
          (types.set_resolve_provider (has b.features "inlayHint/resolve"))
  pub implementation :
      c.implementation_provider ≡ expected b "textDocument/implementation" (some (bool true))
  pub references : c.references_provider ≡ expected b "textDocument/references" (some (bool true))
  pub document_highlight :
      c.document_highlight_provider ≡ expected b "textDocument/documentHighlight" (some (bool true))
  pub document_symbol :
      c.document_symbol_provider ≡ expected b "textDocument/documentSymbol" (some (bool true))
  pub code_action : c.code_action_provider ≡ expected b "textDocument/codeAction" (some (bool true))
  pub code_lens :
      c.code_lens_provider
      ≡ expected_object b "textDocument/codeLens"
          (types.default_options "textDocument/codeLens")
          (types.set_resolve_provider (has b.features "codeLens/resolve"))
  pub document_link :
      c.document_link_provider
      ≡ expected_object b "textDocument/documentLink"
          (types.default_options "textDocument/documentLink")
          (types.set_resolve_provider (has b.features "documentLink/resolve"))
  pub color : c.color_provider ≡ expected b "textDocument/documentColor" (some (bool true))
  pub document_formatting :
      c.document_formatting_provider ≡ expected b "textDocument/formatting" (some (bool true))
  pub document_range_formatting :
      c.document_range_formatting_provider
      ≡ expected b "textDocument/rangeFormatting" (some (bool true))
  pub document_on_type_formatting :
      c.document_on_type_formatting_provider ≡ expected b "textDocument/onTypeFormatting" none
  pub folding_range :
      c.folding_range_provider ≡ expected b "textDocument/foldingRange" (some (bool true))
  pub selection_range :
      c.selection_range_provider ≡ expected b "textDocument/selectionRange" (some (bool true))
  pub call_hierarchy :
      c.call_hierarchy_provider ≡ expected b "textDocument/prepareCallHierarchy" (some (bool true))
  pub type_hierarchy :
      c.type_hierarchy_provider ≡ expected b "textDocument/prepareTypeHierarchy" (some (bool true))
  pub linked_editing_range :
      c.linked_editing_range_provider
      ≡ expected b "textDocument/linkedEditingRange" (some (bool true))
  pub moniker : c.moniker_provider ≡ expected b "textDocument/moniker" (some (bool true))
  pub workspace_symbol :
      c.workspace_symbol_provider
      ≡ expected_object b "workspace/symbol"
          (types.default_options "workspace/symbol")
          (types.set_resolve_provider (has b.features "workspaceSymbol/resolve"))
  pub diagnostic :
      c.diagnostic_provider
      ≡ expected_object b "textDocument/diagnostic"
          (types.default_options "textDocument/diagnostic")
          (types.set_workspace_diagnostics (has b.features "workspace/diagnostic"))
  pub inline_value :
      c.inline_value_provider ≡ expected b "textDocument/inlineValue" (some (bool true))
  pub inline_completion :
      c.inline_completion_provider ≡ expected b "textDocument/inlineCompletion" none

-- Each of these providers but two is announced exactly if its feature is registered, with the options it
-- was registered with or else the default. Formatting on typing and inline completion have no default: they
-- are announced exactly if they are registered with options, with these. Resolving is announced exactly if its own feature is
-- registered, and so are diagnostics of the workspace.
pub build-Announces :
    {O : Type 0} (types : Types O) (b : Builder O) → Announces types b (build types b)
unfolding build
build-Announces types b = record {
  completion =
      provider b "textDocument/completion"
        (some (object (types.default_options "textDocument/completion")));
  hover = provider b "textDocument/hover" (some (bool true));
  signature_help =
      provider b "textDocument/signatureHelp"
        (some (object (types.default_options "textDocument/signatureHelp")));
  declaration = provider b "textDocument/declaration" (some (bool true));
  definition = provider b "textDocument/definition" (some (bool true));
  type_definition = provider b "textDocument/typeDefinition" (some (bool true));
  inlay_hints = resolving types b "textDocument/inlayHint" "inlayHint/resolve";
  implementation = provider b "textDocument/implementation" (some (bool true));
  references = provider b "textDocument/references" (some (bool true));
  document_highlight = provider b "textDocument/documentHighlight" (some (bool true));
  document_symbol = provider b "textDocument/documentSymbol" (some (bool true));
  code_action = provider b "textDocument/codeAction" (some (bool true));
  code_lens = resolving types b "textDocument/codeLens" "codeLens/resolve";
  document_link = resolving types b "textDocument/documentLink" "documentLink/resolve";
  color = provider b "textDocument/documentColor" (some (bool true));
  document_formatting = provider b "textDocument/formatting" (some (bool true));
  document_range_formatting = provider b "textDocument/rangeFormatting" (some (bool true));
  document_on_type_formatting = provider b "textDocument/onTypeFormatting" none;
  folding_range = provider b "textDocument/foldingRange" (some (bool true));
  selection_range = provider b "textDocument/selectionRange" (some (bool true));
  call_hierarchy = provider b "textDocument/prepareCallHierarchy" (some (bool true));
  type_hierarchy = provider b "textDocument/prepareTypeHierarchy" (some (bool true));
  linked_editing_range = provider b "textDocument/linkedEditingRange" (some (bool true));
  moniker = provider b "textDocument/moniker" (some (bool true));
  workspace_symbol = resolving types b "workspace/symbol" "workspaceSymbol/resolve";
  diagnostic = diagnosing types b "textDocument/diagnostic";
  inline_value = provider b "textDocument/inlineValue" (some (bool true));
  inline_completion = provider b "textDocument/inlineCompletion" none;
}

module _ {O : Type 0} (types : Types O) (b : Builder O) where
  -- Renaming is announced exactly if it is registered; with the options for its preparation, whether
  -- that is registered, exactly if the client says that it supports it.
  pub build-rename : (build types b).rename_provider ≡ (
      if has b.features "textDocument/rename"
      then some (
          if is_true (
            get_capability b.client_capabilities
              ("text_document" ∷ "rename" ∷ "prepare_support" ∷ [])
              (some (Value.bool false)))
          then object (types.rename_options (has b.features "textDocument/prepareRename"))
          else bool true)
      else none)
  unfolding build
  build-rename = ground arith

  -- The options with which a feature is registered.
  abbrev given : String → Option O
  given f = if has b.features f then Dict.get b.feature_options f else none

  abbrev pub or_given : Option O → String → Option O
  or_given (some o) f = some o
  or_given none f = given f

  -- Semantic tokens are announced exactly if one of their three requests is registered with options. The
  -- options of full requests count before those of delta requests, and these before those of range requests.
  -- They are announced themselves if they are a whole registration, or else as the legend, with what is
  -- registered of full, delta and range requests.
  pub build-semantic_tokens :
      (build types b).semantic_tokens_provider
      ≡ Option.map
          (λ legend.
            if types.is_registration legend
            then legend
            else types.semantic_tokens_options legend
                (if has b.features "textDocument/semanticTokens/full/delta"
                  then delta
                  else if has b.features "textDocument/semanticTokens/full"
                  then supported
                  else unsupported)
                (has b.features "textDocument/semanticTokens/range"))
          (or_given
            (or_given
              (given "textDocument/semanticTokens/full")
              "textDocument/semanticTokens/full/delta")
            "textDocument/semanticTokens/range")
  unfolding build first_options full_support Option.bind
  build-semantic_tokens = ground arith
