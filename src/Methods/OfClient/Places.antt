-- ===== src/Methods/OfClient/Places.antt =====
-- pygls/lsp/_base_client.py: requests about a document, from inlay hints to type hierarchies.
use pygls.Rpc.Send.{Env}
use pygls.Rpc.ServerExit.{Client}
use pygls.Methods.{Method, send, send_async, unless_stopped}

module _ {A : Type 0} (env : Env A) where
  abbrev pub text_document_inlay_hint : Method A (Client A)
  text_document_inlay_hint params = unless_stopped (send env "textDocument/inlayHint" params)

  abbrev pub text_document_inlay_hint_async : Method A (Client A)
  text_document_inlay_hint_async params =
      unless_stopped (send_async env "textDocument/inlayHint" params)

  abbrev pub text_document_inline_completion : Method A (Client A)
  text_document_inline_completion params =
      unless_stopped (send env "textDocument/inlineCompletion" params)

  abbrev pub text_document_inline_completion_async : Method A (Client A)
  text_document_inline_completion_async params =
      unless_stopped (send_async env "textDocument/inlineCompletion" params)

  abbrev pub text_document_inline_value : Method A (Client A)
  text_document_inline_value params = unless_stopped (send env "textDocument/inlineValue" params)

  abbrev pub text_document_inline_value_async : Method A (Client A)
  text_document_inline_value_async params =
      unless_stopped (send_async env "textDocument/inlineValue" params)

  abbrev pub text_document_linked_editing_range : Method A (Client A)
  text_document_linked_editing_range params =
      unless_stopped (send env "textDocument/linkedEditingRange" params)

  abbrev pub text_document_linked_editing_range_async : Method A (Client A)
  text_document_linked_editing_range_async params =
      unless_stopped (send_async env "textDocument/linkedEditingRange" params)

  abbrev pub text_document_moniker : Method A (Client A)
  text_document_moniker params = unless_stopped (send env "textDocument/moniker" params)

  abbrev pub text_document_moniker_async : Method A (Client A)
  text_document_moniker_async params = unless_stopped (send_async env "textDocument/moniker" params)

  abbrev pub text_document_on_type_formatting : Method A (Client A)
  text_document_on_type_formatting params =
      unless_stopped (send env "textDocument/onTypeFormatting" params)

  abbrev pub text_document_on_type_formatting_async : Method A (Client A)
  text_document_on_type_formatting_async params =
      unless_stopped (send_async env "textDocument/onTypeFormatting" params)

  abbrev pub text_document_prepare_call_hierarchy : Method A (Client A)
  text_document_prepare_call_hierarchy params =
      unless_stopped (send env "textDocument/prepareCallHierarchy" params)

  abbrev pub text_document_prepare_call_hierarchy_async : Method A (Client A)
  text_document_prepare_call_hierarchy_async params =
      unless_stopped (send_async env "textDocument/prepareCallHierarchy" params)

  abbrev pub text_document_prepare_rename : Method A (Client A)
  text_document_prepare_rename params =
      unless_stopped (send env "textDocument/prepareRename" params)

  abbrev pub text_document_prepare_rename_async : Method A (Client A)
  text_document_prepare_rename_async params =
      unless_stopped (send_async env "textDocument/prepareRename" params)

  abbrev pub text_document_prepare_type_hierarchy : Method A (Client A)
  text_document_prepare_type_hierarchy params =
      unless_stopped (send env "textDocument/prepareTypeHierarchy" params)

  abbrev pub text_document_prepare_type_hierarchy_async : Method A (Client A)
  text_document_prepare_type_hierarchy_async params =
      unless_stopped (send_async env "textDocument/prepareTypeHierarchy" params)
