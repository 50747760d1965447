-- ===== src/Methods/Rows.antt =====
-- The rows of lsprotocol's METHOD_TO_TYPES for clients and for servers, as the docstrings in
-- pygls/lsp/_base_client.py and _base_server.py name them.
use pygls.Prelude.{true, false, List, [], ◌∷◌}
use pygls.Methods.{Row, row_of, client_to_server, server_to_client, both}

abbrev pub client_rows : List Row
client_rows =
    row_of "callHierarchy/incomingCalls" client_to_server true
    ∷ row_of "callHierarchy/outgoingCalls" client_to_server true
    ∷ row_of "codeAction/resolve" client_to_server true
    ∷ row_of "codeLens/resolve" client_to_server true
    ∷ row_of "completionItem/resolve" client_to_server true
    ∷ row_of "documentLink/resolve" client_to_server true
    ∷ row_of "initialize" client_to_server true
    ∷ row_of "inlayHint/resolve" client_to_server true
    ∷ row_of "shutdown" client_to_server true
    ∷ row_of "textDocument/codeAction" client_to_server true
    ∷ row_of "textDocument/codeLens" client_to_server true
    ∷ row_of "textDocument/colorPresentation" client_to_server true
    ∷ row_of "textDocument/completion" client_to_server true
    ∷ row_of "textDocument/declaration" client_to_server true
    ∷ row_of "textDocument/definition" client_to_server true
    ∷ row_of "textDocument/diagnostic" client_to_server true
    ∷ row_of "textDocument/documentColor" client_to_server true
    ∷ row_of "textDocument/documentHighlight" client_to_server true
    ∷ row_of "textDocument/documentLink" client_to_server true
    ∷ row_of "textDocument/documentSymbol" client_to_server true
    ∷ row_of "textDocument/foldingRange" client_to_server true
    ∷ row_of "textDocument/formatting" client_to_server true
    ∷ row_of "textDocument/hover" client_to_server true
    ∷ row_of "textDocument/implementation" client_to_server true
    ∷ row_of "textDocument/inlayHint" client_to_server true
    ∷ row_of "textDocument/inlineCompletion" client_to_server true
    ∷ row_of "textDocument/inlineValue" client_to_server true
    ∷ row_of "textDocument/linkedEditingRange" client_to_server true
    ∷ row_of "textDocument/moniker" client_to_server true
    ∷ row_of "textDocument/onTypeFormatting" client_to_server true
    ∷ row_of "textDocument/prepareCallHierarchy" client_to_server true
    ∷ row_of "textDocument/prepareRename" client_to_server true
    ∷ row_of "textDocument/prepareTypeHierarchy" client_to_server true
    ∷ row_of "textDocument/rangesFormatting" client_to_server true
    ∷ row_of "textDocument/rangeFormatting" client_to_server true
    ∷ row_of "textDocument/references" client_to_server true
    ∷ row_of "textDocument/rename" client_to_server true
    ∷ row_of "textDocument/selectionRange" client_to_server true
    ∷ row_of "textDocument/semanticTokens/full" client_to_server true
    ∷ row_of "textDocument/semanticTokens/full/delta" client_to_server true
    ∷ row_of "textDocument/semanticTokens/range" client_to_server true
    ∷ row_of "textDocument/signatureHelp" client_to_server true
    ∷ row_of "textDocument/typeDefinition" client_to_server true
    ∷ row_of "textDocument/willSaveWaitUntil" client_to_server true
    ∷ row_of "typeHierarchy/subtypes" client_to_server true
    ∷ row_of "typeHierarchy/supertypes" client_to_server true
    ∷ row_of "workspace/diagnostic" client_to_server true
    ∷ row_of "workspace/executeCommand" client_to_server true
    ∷ row_of "workspace/symbol" client_to_server true
    ∷ row_of "workspaceSymbol/resolve" client_to_server true
    ∷ row_of "workspace/textDocumentContent" client_to_server true
    ∷ row_of "workspace/willCreateFiles" client_to_server true
    ∷ row_of "workspace/willDeleteFiles" client_to_server true
    ∷ row_of "workspace/willRenameFiles" client_to_server true
    ∷ row_of "$/cancelRequest" both false
    ∷ row_of "exit" client_to_server false
    ∷ row_of "initialized" client_to_server false
    ∷ row_of "notebookDocument/didChange" client_to_server false
    ∷ row_of "notebookDocument/didClose" client_to_server false
    ∷ row_of "notebookDocument/didOpen" client_to_server false
    ∷ row_of "notebookDocument/didSave" client_to_server false
    ∷ row_of "$/progress" both false
    ∷ row_of "$/setTrace" client_to_server false
    ∷ row_of "textDocument/didChange" client_to_server false
    ∷ row_of "textDocument/didClose" client_to_server false
    ∷ row_of "textDocument/didOpen" client_to_server false
    ∷ row_of "textDocument/didSave" client_to_server false
    ∷ row_of "textDocument/willSave" client_to_server false
    ∷ row_of "window/workDoneProgress/cancel" client_to_server false
    ∷ row_of "workspace/didChangeConfiguration" client_to_server false
    ∷ row_of "workspace/didChangeWatchedFiles" client_to_server false
    ∷ row_of "workspace/didChangeWorkspaceFolders" client_to_server false
    ∷ row_of "workspace/didCreateFiles" client_to_server false
    ∷ row_of "workspace/didDeleteFiles" client_to_server false
    ∷ row_of "workspace/didRenameFiles" client_to_server false
    ∷ []

abbrev pub server_rows : List Row
server_rows =
    row_of "client/registerCapability" server_to_client true
    ∷ row_of "client/unregisterCapability" server_to_client true
    ∷ row_of "window/showDocument" server_to_client true
    ∷ row_of "window/showMessageRequest" server_to_client true
    ∷ row_of "window/workDoneProgress/create" server_to_client true
    ∷ row_of "workspace/applyEdit" server_to_client true
    ∷ row_of "workspace/codeLens/refresh" server_to_client true
    ∷ row_of "workspace/configuration" server_to_client true
    ∷ row_of "workspace/diagnostic/refresh" server_to_client true
    ∷ row_of "workspace/foldingRange/refresh" server_to_client true
    ∷ row_of "workspace/inlayHint/refresh" server_to_client true
    ∷ row_of "workspace/inlineValue/refresh" server_to_client true
    ∷ row_of "workspace/semanticTokens/refresh" server_to_client true
    ∷ row_of "workspace/textDocumentContent/refresh" server_to_client true
    ∷ row_of "workspace/workspaceFolders" server_to_client true
    ∷ row_of "$/cancelRequest" both false
    ∷ row_of "$/logTrace" server_to_client false
    ∷ row_of "$/progress" both false
    ∷ row_of "telemetry/event" server_to_client false
    ∷ row_of "textDocument/publishDiagnostics" server_to_client false
    ∷ row_of "window/logMessage" server_to_client false
    ∷ row_of "window/showMessage" server_to_client false
    ∷ []
