-- ===== src/Methods/OfClient/Spaces.antt =====
-- pygls/lsp/_base_client.py: requests about the workspace and type hierarchies.
use pygls.Rpc.Send.{Env}
use pygls.Rpc.ServerExit.{Client}
use pygls.Methods.{Method, send, send_async, unless_stopped}

module _ {A : Type 0} (env : Env A) where
  abbrev pub type_hierarchy_subtypes : Method A (Client A)
  type_hierarchy_subtypes params = unless_stopped (send env "typeHierarchy/subtypes" params)

  abbrev pub type_hierarchy_subtypes_async : Method A (Client A)
  type_hierarchy_subtypes_async params =
      unless_stopped (send_async env "typeHierarchy/subtypes" params)

  abbrev pub type_hierarchy_supertypes : Method A (Client A)
  type_hierarchy_supertypes params = unless_stopped (send env "typeHierarchy/supertypes" params)

  abbrev pub type_hierarchy_supertypes_async : Method A (Client A)
  type_hierarchy_supertypes_async params =
      unless_stopped (send_async env "typeHierarchy/supertypes" params)

  abbrev pub workspace_diagnostic : Method A (Client A)
  workspace_diagnostic params = unless_stopped (send env "workspace/diagnostic" params)

  abbrev pub workspace_diagnostic_async : Method A (Client A)
  workspace_diagnostic_async params = unless_stopped (send_async env "workspace/diagnostic" params)

  abbrev pub workspace_execute_command : Method A (Client A)
  workspace_execute_command params = unless_stopped (send env "workspace/executeCommand" params)

  abbrev pub workspace_execute_command_async : Method A (Client A)
  workspace_execute_command_async params =
      unless_stopped (send_async env "workspace/executeCommand" params)

  abbrev pub workspace_symbol : Method A (Client A)
  workspace_symbol params = unless_stopped (send env "workspace/symbol" params)

  abbrev pub workspace_symbol_async : Method A (Client A)
  workspace_symbol_async params = unless_stopped (send_async env "workspace/symbol" params)

  abbrev pub workspace_symbol_resolve : Method A (Client A)
  workspace_symbol_resolve params = unless_stopped (send env "workspaceSymbol/resolve" params)

  abbrev pub workspace_symbol_resolve_async : Method A (Client A)
  workspace_symbol_resolve_async params =
      unless_stopped (send_async env "workspaceSymbol/resolve" params)

  abbrev pub workspace_text_document_content : Method A (Client A)
  workspace_text_document_content params =
      unless_stopped (send env "workspace/textDocumentContent" params)

  abbrev pub workspace_text_document_content_async : Method A (Client A)
  workspace_text_document_content_async params =
      unless_stopped (send_async env "workspace/textDocumentContent" params)

  abbrev pub workspace_will_create_files : Method A (Client A)
  workspace_will_create_files params = unless_stopped (send env "workspace/willCreateFiles" params)

  abbrev pub workspace_will_create_files_async : Method A (Client A)
  workspace_will_create_files_async params =
      unless_stopped (send_async env "workspace/willCreateFiles" params)

  abbrev pub workspace_will_delete_files : Method A (Client A)
  workspace_will_delete_files params = unless_stopped (send env "workspace/willDeleteFiles" params)

  abbrev pub workspace_will_delete_files_async : Method A (Client A)
  workspace_will_delete_files_async params =
      unless_stopped (send_async env "workspace/willDeleteFiles" params)

  abbrev pub workspace_will_rename_files : Method A (Client A)
  workspace_will_rename_files params = unless_stopped (send env "workspace/willRenameFiles" params)

  abbrev pub workspace_will_rename_files_async : Method A (Client A)
  workspace_will_rename_files_async params =
      unless_stopped (send_async env "workspace/willRenameFiles" params)
