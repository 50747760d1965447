-- ===== src/Methods/OfClient/Notices.antt =====
-- pygls/lsp/_base_client.py: notifications.
use pygls.Rpc.Send.{Env}
use pygls.Rpc.ServerExit.{Client}
use pygls.Methods.{Method, send_notification, unless_stopped}

module _ {A : Type 0} (env : Env A) where
  abbrev pub cancel_request : Method A (Client A)
  cancel_request params = unless_stopped (send_notification env "$/cancelRequest" params)

  abbrev pub exit : Method A (Client A)
  exit params = unless_stopped (send_notification env "exit" params)

  abbrev pub initialized : Method A (Client A)
  initialized params = unless_stopped (send_notification env "initialized" params)

  abbrev pub notebook_document_did_change : Method A (Client A)
  notebook_document_did_change params =
      unless_stopped (send_notification env "notebookDocument/didChange" params)

  abbrev pub notebook_document_did_close : Method A (Client A)
  notebook_document_did_close params =
      unless_stopped (send_notification env "notebookDocument/didClose" params)

  abbrev pub notebook_document_did_open : Method A (Client A)
  notebook_document_did_open params =
      unless_stopped (send_notification env "notebookDocument/didOpen" params)

  abbrev pub notebook_document_did_save : Method A (Client A)
  notebook_document_did_save params =
      unless_stopped (send_notification env "notebookDocument/didSave" params)

  abbrev pub progress : Method A (Client A)
  progress params = unless_stopped (send_notification env "$/progress" params)

  abbrev pub set_trace : Method A (Client A)
  set_trace params = unless_stopped (send_notification env "$/setTrace" params)

  abbrev pub text_document_did_change : Method A (Client A)
  text_document_did_change params =
      unless_stopped (send_notification env "textDocument/didChange" params)

  abbrev pub text_document_did_close : Method A (Client A)
  text_document_did_close params =
      unless_stopped (send_notification env "textDocument/didClose" params)

  abbrev pub text_document_did_open : Method A (Client A)
  text_document_did_open params =
      unless_stopped (send_notification env "textDocument/didOpen" params)

  abbrev pub text_document_did_save : Method A (Client A)
  text_document_did_save params =
      unless_stopped (send_notification env "textDocument/didSave" params)

  abbrev pub text_document_will_save : Method A (Client A)
  text_document_will_save params =
      unless_stopped (send_notification env "textDocument/willSave" params)

  abbrev pub window_work_done_progress_cancel : Method A (Client A)
  window_work_done_progress_cancel params =
      unless_stopped (send_notification env "window/workDoneProgress/cancel" params)

  abbrev pub workspace_did_change_configuration : Method A (Client A)
  workspace_did_change_configuration params =
      unless_stopped (send_notification env "workspace/didChangeConfiguration" params)

  abbrev pub workspace_did_change_watched_files : Method A (Client A)
  workspace_did_change_watched_files params =
      unless_stopped (send_notification env "workspace/didChangeWatchedFiles" params)

  abbrev pub workspace_did_change_workspace_folders : Method A (Client A)
  workspace_did_change_workspace_folders params =
      unless_stopped (send_notification env "workspace/didChangeWorkspaceFolders" params)

  abbrev pub workspace_did_create_files : Method A (Client A)
  workspace_did_create_files params =
      unless_stopped (send_notification env "workspace/didCreateFiles" params)

  abbrev pub workspace_did_delete_files : Method A (Client A)
  workspace_did_delete_files params =
      unless_stopped (send_notification env "workspace/didDeleteFiles" params)

  abbrev pub workspace_did_rename_files : Method A (Client A)
  workspace_did_rename_files params =
      unless_stopped (send_notification env "workspace/didRenameFiles" params)
