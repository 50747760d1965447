-- ===== src/Methods/OfClient/Edits.antt =====
-- pygls/lsp/_base_client.py: requests about a document, from formatting to saving.
use pygls.Rpc.Send.{Env}
use pygls.Rpc.ServerExit.{Client}
use pygls.Methods.{Method, send, send_async, unless_stopped}

module _ {A : Type 0} (env : Env A) where
  abbrev pub text_document_ranges_formatting : Method A (Client A)
  text_document_ranges_formatting params =
      unless_stopped (send env "textDocument/rangesFormatting" params)

  abbrev pub text_document_ranges_formatting_async : Method A (Client A)
  text_document_ranges_formatting_async params =
      unless_stopped (send_async env "textDocument/rangesFormatting" params)

  abbrev pub text_document_range_formatting : Method A (Client A)
  text_document_range_formatting params =
      unless_stopped (send env "textDocument/rangeFormatting" params)

  abbrev pub text_document_range_formatting_async : Method A (Client A)
  text_document_range_formatting_async params =
      unless_stopped (send_async env "textDocument/rangeFormatting" params)

  abbrev pub text_document_references : Method A (Client A)
  text_document_references params = unless_stopped (send env "textDocument/references" params)

  abbrev pub text_document_references_async : Method A (Client A)
  text_document_references_async params =
      unless_stopped (send_async env "textDocument/references" params)

  abbrev pub text_document_rename : Method A (Client A)
  text_document_rename params = unless_stopped (send env "textDocument/rename" params)

  abbrev pub text_document_rename_async : Method A (Client A)
  text_document_rename_async params = unless_stopped (send_async env "textDocument/rename" params)

  abbrev pub text_document_selection_range : Method A (Client A)
  text_document_selection_range params =
      unless_stopped (send env "textDocument/selectionRange" params)

  abbrev pub text_document_selection_range_async : Method A (Client A)
  text_document_selection_range_async params =
      unless_stopped (send_async env "textDocument/selectionRange" params)

  abbrev pub text_document_semantic_tokens_full : Method A (Client A)
  text_document_semantic_tokens_full params =
      unless_stopped (send env "textDocument/semanticTokens/full" params)

  abbrev pub text_document_semantic_tokens_full_async : Method A (Client A)
  text_document_semantic_tokens_full_async params =
      unless_stopped (send_async env "textDocument/semanticTokens/full" params)

  abbrev pub text_document_semantic_tokens_full_delta : Method A (Client A)
  text_document_semantic_tokens_full_delta params =
      unless_stopped (send env "textDocument/semanticTokens/full/delta" params)

  abbrev pub text_document_semantic_tokens_full_delta_async : Method A (Client A)
  text_document_semantic_tokens_full_delta_async params =
      unless_stopped (send_async env "textDocument/semanticTokens/full/delta" params)

  abbrev pub text_document_semantic_tokens_range : Method A (Client A)
  text_document_semantic_tokens_range params =
      unless_stopped (send env "textDocument/semanticTokens/range" params)

  abbrev pub text_document_semantic_tokens_range_async : Method A (Client A)
  text_document_semantic_tokens_range_async params =
      unless_stopped (send_async env "textDocument/semanticTokens/range" params)

  abbrev pub text_document_signature_help : Method A (Client A)
  text_document_signature_help params =
      unless_stopped (send env "textDocument/signatureHelp" params)

  abbrev pub text_document_signature_help_async : Method A (Client A)
  text_document_signature_help_async params =
      unless_stopped (send_async env "textDocument/signatureHelp" params)

  abbrev pub text_document_type_definition : Method A (Client A)
  text_document_type_definition params =
      unless_stopped (send env "textDocument/typeDefinition" params)

  abbrev pub text_document_type_definition_async : Method A (Client A)
  text_document_type_definition_async params =
      unless_stopped (send_async env "textDocument/typeDefinition" params)

  abbrev pub text_document_will_save_wait_until : Method A (Client A)
  text_document_will_save_wait_until params =
      unless_stopped (send env "textDocument/willSaveWaitUntil" params)

  abbrev pub text_document_will_save_wait_until_async : Method A (Client A)
  text_document_will_save_wait_until_async params =
      unless_stopped (send_async env "textDocument/willSaveWaitUntil" params)
