-- ===== src/Capabilities.antt =====
-- pygls/capabilities.py: `ServerCapabilitiesBuilder`, which computes what the server announces from
-- the registered features and from what the client can do. `O` is the type of lsprotocol's option
-- objects, and `Types` what the source calls of lsprotocol for them.
use pygls.Prelude.{
  String, Bool, true, false, ◌&&◌, ◌||◌, List, [], ◌∷◌, Option, none, some, if◌then◌else◌,
}
use mathlib.Core.Option
use text.Mathlib.Text.{◌==◌ as str_eq}
use pygls.Prelude.Eq.{string_eq}
use pygls.Prelude.Dict
use pygls.Prelude.Dict.{Dict}
use pygls.Codec.{Encoding}
use pygls.Document.{SyncKind}
use pygls.Client.{Value, missing, get_capability, is_true}
pub mod Build
pub mod Announced

-- A provider field: a Boolean or an object with options.
pub data Provider (O : Type 0) : Type 0 where
  bool : Bool → Provider O
  object : O → Provider O

-- `full` of SemanticTokensOptions
pub data FullSupport : Type 0 where
  unsupported supported delta : FullSupport

-- lsprotocol's option types: the default object of a method's options, the assignments to two of
-- their fields, the constructors of two types, and `isinstance` of a third.
pub record Types (O : Type 0) : Type 0 where
  pub default_options : String → O
  pub set_resolve_provider : Bool → O → O
  pub set_workspace_diagnostics : Bool → O → O
  pub rename_options : Bool → O
  pub semantic_tokens_options : O → FullSupport → Bool → O
  pub is_registration : O → Bool

-- TextDocumentSyncOptions
pub record SyncOptions (O : Type 0) : Type 0 where
  pub open_close : Bool
  pub change : SyncKind
  pub will_save : Option Value
  pub will_save_wait_until : Option Value
  pub save : Provider O

-- FileOperationOptions
pub record FileOperations (O : Type 0) : Type 0 where
  pub will_create : Option (Provider O)
  pub did_create : Option (Provider O)
  pub will_delete : Option (Provider O)
  pub did_delete : Option (Provider O)
  pub will_rename : Option (Provider O)
  pub did_rename : Option (Provider O)

-- types.ServerCapabilities; `workspace` is its file operations, beside the support of folders, which
-- is always announced.
pub record ServerCapabilities (O : Type 0) : Type 0 where
  pub position_encoding : Encoding
  pub text_document_sync : Option (SyncOptions O)
  pub notebook_document_sync : Option O
  pub completion_provider : Option (Provider O)
  pub hover_provider : Option (Provider O)
  pub signature_help_provider : Option (Provider O)
  pub declaration_provider : Option (Provider O)
  pub definition_provider : Option (Provider O)
  pub type_definition_provider : Option (Provider O)
  pub inlay_hint_provider : Option (Provider O)
  pub implementation_provider : Option (Provider O)
  pub references_provider : Option (Provider O)
  pub document_highlight_provider : Option (Provider O)
  pub document_symbol_provider : Option (Provider O)
  pub code_action_provider : Option (Provider O)
  pub code_lens_provider : Option (Provider O)
  pub document_link_provider : Option (Provider O)
  pub color_provider : Option (Provider O)
  pub document_formatting_provider : Option (Provider O)
  pub document_range_formatting_provider : Option (Provider O)
  pub document_on_type_formatting_provider : Option (Provider O)
  pub folding_range_provider : Option (Provider O)
  pub selection_range_provider : Option (Provider O)
  pub call_hierarchy_provider : Option (Provider O)
  pub type_hierarchy_provider : Option (Provider O)
  pub linked_editing_range_provider : Option (Provider O)
  pub moniker_provider : Option (Provider O)
  pub workspace_symbol_provider : Option (Provider O)
  pub diagnostic_provider : Option (Provider O)
  pub inline_value_provider : Option (Provider O)
  pub inline_completion_provider : Option (Provider O)
  pub rename_provider : Option (Provider O)
  pub execute_command_provider : Option (List String)
  pub semantic_tokens_provider : Option O
  pub workspace : Option (FileOperations O)

-- ServerCapabilitiesBuilder, without the `server_cap` that it builds up
pub record Builder (O : Type 0) : Type 0 where
  pub client_capabilities : Value
  pub features : List String
  pub feature_options : Dict String O
  pub commands : List String
  pub text_document_sync_kind : SyncKind
  pub notebook_document_sync : Option O
  pub position_encoding : Encoding

-- feature in self.features
abbrev pub has : List String → String → Bool
has [] f = false
has (g ∷ gs) f = str_eq g f || has gs f

module _ {O : Type 0} where
  unfoldable pub provider_options : Builder O → String → Option (Provider O) → Option (Provider O)
  provider_options b feature default =
      if has b.features feature
      then (elim (Dict.get b.feature_options feature) [ some o ↦ some (object o) | none ↦ default ])
      else none

-- if value is not None: self.server_cap.… = value
abbrev pub set_provider {ℓ} : {V : Type ℓ} → Option V → Option V → Option V
set_provider none old = old
set_provider (some v) old = some v

module _ {O : Type 0} (types : Types O) (b : Builder O) where
  -- value.resolve_provider = feature in self.features
  abbrev pub with_resolve : String → Option (Provider O) → Option (Provider O)
  with_resolve feature (some (object o)) =
      some (object (types.set_resolve_provider (has b.features feature) o))
  with_resolve feature value = value

  abbrev pub with_workspace_diagnostics : Option (Provider O) → Option (Provider O)
  with_workspace_diagnostics (some (object o)) =
      some (object (types.set_workspace_diagnostics (has b.features "workspace/diagnostic") o))
  with_workspace_diagnostics value = value
