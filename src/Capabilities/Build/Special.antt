-- ===== src/Capabilities/Build/Special.antt =====
-- pygls/capabilities.py: the `_with_…` methods of `ServerCapabilitiesBuilder` that are not of the common form.
use pygls.Prelude.{
  String, Bool, true, false, ◌||◌, List, [], ◌∷◌, Option, none, some, if◌then◌else◌,
}
use mathlib.Core.Option
use pygls.Prelude.Eq.{string_eq}
use pygls.Prelude.Dict
use pygls.Prelude.Dict.{Dict}
use pygls.Client.{Value, missing, get_capability, is_true, and_feature}
use pygls.Capabilities.{
  Provider, bool, object, FullSupport, unsupported, supported, delta, Types, ServerCapabilities,
  Builder, has, provider_options, set_provider,
}

module _ {O : Type 0} (types : Types O) (b : Builder O) where
  unfoldable pub with_text_document_sync : ServerCapabilities O → ServerCapabilities O
  with_text_document_sync c = record c {
    text_document_sync = some (record {
      open_close = has b.features "textDocument/didOpen" || has b.features "textDocument/didClose";
      change = b.text_document_sync_kind;
      will_save =
          and_feature
            (get_capability b.client_capabilities
              ("text_document" ∷ "synchronization" ∷ "will_save" ∷ []) none)
            (has b.features "textDocument/willSave");
      will_save_wait_until =
          and_feature
            (get_capability b.client_capabilities
              ("text_document" ∷ "synchronization" ∷ "will_save_wait_until" ∷ []) none)
            (has b.features "textDocument/willSaveWaitUntil");
      save =
          if has b.features "textDocument/didSave"
          then Option.get_or (Option.map object (Dict.get b.feature_options "textDocument/didSave"))
              (bool true)
          else bool false;
    });
  }

  unfoldable pub with_notebook_document_sync : ServerCapabilities O → ServerCapabilities O
  with_notebook_document_sync c = record c {
    notebook_document_sync =
        if missing b.client_capabilities "notebook_document"
        then c.notebook_document_sync
        else b.notebook_document_sync;
  }

  unfoldable pub with_rename : ServerCapabilities O → ServerCapabilities O
  with_rename c = record c {
    rename_provider =
        if has b.features "textDocument/rename"
        then (if is_true (
              get_capability b.client_capabilities
                ("text_document" ∷ "rename" ∷ "prepare_support" ∷ []) (some (Value.bool false)))
            then some (object (types.rename_options (has b.features "textDocument/prepareRename")))
            else some (bool true))
        else c.rename_provider;
  }

  unfoldable pub with_execute_command : ServerCapabilities O → ServerCapabilities O
  with_execute_command c = record c { execute_command_provider = some b.commands }

  -- The loop over `providers`: the first options that are registered.
  unfoldable pub first_options : List String → Option O
  first_options [] = none
  first_options (f ∷ fs) =
      let rest = first_options fs in
      if has b.features f
      then (elim (Dict.get b.feature_options f) [ some o ↦ some o | none ↦ rest ])
      else rest

  abbrev pub is_full : FullSupport → Bool
  is_full unsupported = false
  is_full _ = true

  unfoldable pub full_support : FullSupport
  full_support =
      if has b.features "textDocument/semanticTokens/full/delta"
      then delta
      else if has b.features "textDocument/semanticTokens/full"
      then supported
      else unsupported

  abbrev pub tokens_options : O → Option O
  tokens_options legend =
      if types.is_registration legend
      then some legend
      else (let range = has b.features "textDocument/semanticTokens/range" in
          if is_full full_support || range
          then some (types.semantic_tokens_options legend full_support range)
          else none)

  abbrev pub semantic_tokens : List String
  semantic_tokens =
      "textDocument/semanticTokens/full" ∷ "textDocument/semanticTokens/full/delta"
      ∷ "textDocument/semanticTokens/range" ∷ []

  unfoldable pub with_semantic_tokens : ServerCapabilities O → ServerCapabilities O
  unfolding first_options full_support
  with_semantic_tokens c = record c {
    semantic_tokens_provider =
        set_provider (Option.bind (first_options semantic_tokens) tokens_options)
          c.semantic_tokens_provider;
  }

  -- One round of the loop over `operations`.
  abbrev pub file_operation : String → String → Option (Provider O)
  file_operation method_name capability_name =
      if is_true (
        get_capability b.client_capabilities
          ("workspace" ∷ "file_operations" ∷ capability_name ∷ []) none)
      then provider_options b method_name none
      else none

  unfoldable pub with_workspace_capabilities : ServerCapabilities O → ServerCapabilities O
  with_workspace_capabilities c = record c {
    workspace = some (record {
      will_create = file_operation "workspace/willCreateFiles" "will_create";
      did_create = file_operation "workspace/didCreateFiles" "did_create";
      will_delete = file_operation "workspace/willDeleteFiles" "will_delete";
      did_delete = file_operation "workspace/didDeleteFiles" "did_delete";
      will_rename = file_operation "workspace/willRenameFiles" "will_rename";
      did_rename = file_operation "workspace/didRenameFiles" "did_rename";
    });
  }
