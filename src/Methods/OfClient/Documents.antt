-- ===== src/Methods/OfClient/Documents.antt =====
-- pygls/lsp/_base_client.py: requests about a document, from code actions to implementations.
use pygls.Rpc.Send.{Env}
use pygls.Rpc.ServerExit.{Client}
use pygls.Methods.{Method, send, send_async, unless_stopped}

module _ {A : Type 0} (env : Env A) where
  abbrev pub text_document_code_action : Method A (Client A)
  text_document_code_action params = unless_stopped (send env "textDocument/codeAction" params)

  abbrev pub text_document_code_action_async : Method A (Client A)
  text_document_code_action_async params =
      unless_stopped (send_async env "textDocument/codeAction" params)

  abbrev pub text_document_code_lens : Method A (Client A)
  text_document_code_lens params = unless_stopped (send env "textDocument/codeLens" params)

  abbrev pub text_document_code_lens_async : Method A (Client A)
  text_document_code_lens_async params =
      unless_stopped (send_async env "textDocument/codeLens" params)

  abbrev pub text_document_color_presentation : Method A (Client A)
  text_document_color_presentation params =
      unless_stopped (send env "textDocument/colorPresentation" params)

  abbrev pub text_document_color_presentation_async : Method A (Client A)
  text_document_color_presentation_async params =
      unless_stopped (send_async env "textDocument/colorPresentation" params)

  abbrev pub text_document_completion : Method A (Client A)
  text_document_completion params = unless_stopped (send env "textDocument/completion" params)

  abbrev pub text_document_completion_async : Method A (Client A)
  text_document_completion_async params =
      unless_stopped (send_async env "textDocument/completion" params)

  abbrev pub text_document_declaration : Method A (Client A)
  text_document_declaration params = unless_stopped (send env "textDocument/declaration" params)

  abbrev pub text_document_declaration_async : Method A (Client A)
  text_document_declaration_async params =
      unless_stopped (send_async env "textDocument/declaration" params)

  abbrev pub text_document_definition : Method A (Client A)
  text_document_definition params = unless_stopped (send env "textDocument/definition" params)

  abbrev pub text_document_definition_async : Method A (Client A)
  text_document_definition_async params =
      unless_stopped (send_async env "textDocument/definition" params)

  abbrev pub text_document_diagnostic : Method A (Client A)
  text_document_diagnostic params = unless_stopped (send env "textDocument/diagnostic" params)

  abbrev pub text_document_diagnostic_async : Method A (Client A)
  text_document_diagnostic_async params =
      unless_stopped (send_async env "textDocument/diagnostic" params)

  abbrev pub text_document_document_color : Method A (Client A)
  text_document_document_color params =
      unless_stopped (send env "textDocument/documentColor" params)

  abbrev pub text_document_document_color_async : Method A (Client A)
  text_document_document_color_async params =
      unless_stopped (send_async env "textDocument/documentColor" params)

  abbrev pub text_document_document_highlight : Method A (Client A)
  text_document_document_highlight params =
      unless_stopped (send env "textDocument/documentHighlight" params)

  abbrev pub text_document_document_highlight_async : Method A (Client A)
  text_document_document_highlight_async params =
      unless_stopped (send_async env "textDocument/documentHighlight" params)

  abbrev pub text_document_document_link : Method A (Client A)
  text_document_document_link params = unless_stopped (send env "textDocument/documentLink" params)

  abbrev pub text_document_document_link_async : Method A (Client A)
  text_document_document_link_async params =
      unless_stopped (send_async env "textDocument/documentLink" params)

  abbrev pub text_document_document_symbol : Method A (Client A)
  text_document_document_symbol params =
      unless_stopped (send env "textDocument/documentSymbol" params)

  abbrev pub text_document_document_symbol_async : Method A (Client A)
  text_document_document_symbol_async params =
      unless_stopped (send_async env "textDocument/documentSymbol" params)

  abbrev pub text_document_folding_range : Method A (Client A)
  text_document_folding_range params = unless_stopped (send env "textDocument/foldingRange" params)

  abbrev pub text_document_folding_range_async : Method A (Client A)
  text_document_folding_range_async params =
      unless_stopped (send_async env "textDocument/foldingRange" params)

  abbrev pub text_document_formatting : Method A (Client A)
  text_document_formatting params = unless_stopped (send env "textDocument/formatting" params)

  abbrev pub text_document_formatting_async : Method A (Client A)
  text_document_formatting_async params =
      unless_stopped (send_async env "textDocument/formatting" params)

  abbrev pub text_document_hover : Method A (Client A)
  text_document_hover params = unless_stopped (send env "textDocument/hover" params)

  abbrev pub text_document_hover_async : Method A (Client A)
  text_document_hover_async params = unless_stopped (send_async env "textDocument/hover" params)

  abbrev pub text_document_implementation : Method A (Client A)
  text_document_implementation params =
      unless_stopped (send env "textDocument/implementation" params)

  abbrev pub text_document_implementation_async : Method A (Client A)
  text_document_implementation_async params =
      unless_stopped (send_async env "textDocument/implementation" params)
