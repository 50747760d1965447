-- ===== src/Methods/OfClient/Items.antt =====
-- pygls/lsp/_base_client.py: requests for items, and the life cycle.
use pygls.Rpc.Send.{Env}
use pygls.Rpc.ServerExit.{Client}
use pygls.Methods.{Method, send, send_async, unless_stopped}

module _ {A : Type 0} (env : Env A) where
  abbrev pub call_hierarchy_incoming_calls : Method A (Client A)
  call_hierarchy_incoming_calls params =
      unless_stopped (send env "callHierarchy/incomingCalls" params)

  abbrev pub call_hierarchy_incoming_calls_async : Method A (Client A)
  call_hierarchy_incoming_calls_async params =
      unless_stopped (send_async env "callHierarchy/incomingCalls" params)

  abbrev pub call_hierarchy_outgoing_calls : Method A (Client A)
  call_hierarchy_outgoing_calls params =
      unless_stopped (send env "callHierarchy/outgoingCalls" params)

  abbrev pub call_hierarchy_outgoing_calls_async : Method A (Client A)
  call_hierarchy_outgoing_calls_async params =
      unless_stopped (send_async env "callHierarchy/outgoingCalls" params)

  abbrev pub code_action_resolve : Method A (Client A)
  code_action_resolve params = unless_stopped (send env "codeAction/resolve" params)

  abbrev pub code_action_resolve_async : Method A (Client A)
  code_action_resolve_async params = unless_stopped (send_async env "codeAction/resolve" params)

  abbrev pub code_lens_resolve : Method A (Client A)
  code_lens_resolve params = unless_stopped (send env "codeLens/resolve" params)

  abbrev pub code_lens_resolve_async : Method A (Client A)
  code_lens_resolve_async params = unless_stopped (send_async env "codeLens/resolve" params)

  abbrev pub completion_item_resolve : Method A (Client A)
  completion_item_resolve params = unless_stopped (send env "completionItem/resolve" params)

  abbrev pub completion_item_resolve_async : Method A (Client A)
  completion_item_resolve_async params =
      unless_stopped (send_async env "completionItem/resolve" params)

  abbrev pub document_link_resolve : Method A (Client A)
  document_link_resolve params = unless_stopped (send env "documentLink/resolve" params)

  abbrev pub document_link_resolve_async : Method A (Client A)
  document_link_resolve_async params = unless_stopped (send_async env "documentLink/resolve" params)

  abbrev pub initialize : Method A (Client A)
  initialize params = unless_stopped (send env "initialize" params)

  abbrev pub initialize_async : Method A (Client A)
  initialize_async params = unless_stopped (send_async env "initialize" params)

  abbrev pub inlay_hint_resolve : Method A (Client A)
  inlay_hint_resolve params = unless_stopped (send env "inlayHint/resolve" params)

  abbrev pub inlay_hint_resolve_async : Method A (Client A)
  inlay_hint_resolve_async params = unless_stopped (send_async env "inlayHint/resolve" params)

  abbrev pub shutdown : Method A (Client A)
  shutdown params = unless_stopped (send env "shutdown" params)

  abbrev pub shutdown_async : Method A (Client A)
  shutdown_async params = unless_stopped (send_async env "shutdown" params)
