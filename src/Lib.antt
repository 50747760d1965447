-- ===== src/Lib.antt =====
-- pygls, a framework for language servers: a model of its core.
--
-- The program's parts and how they interact. A byte stream carries messages with a header
-- (pygls/io_.py, `_send_data`). The JSON-RPC protocol (pygls/protocol/json_rpc.py) structures a
-- message, finds the handler that the feature manager (pygls/feature_manager.py) has registered for
-- it, runs it at once, in a thread, as a coroutine or as a generator, and answers requests; errors
-- travel as the exceptions of pygls/exceptions.py. On initialization the server chooses a position
-- encoding and computes what it announces (pygls/capabilities.py). Documents that the client opens
-- are kept in the workspace (pygls/workspace/workspace.py), are changed by ranges of lines and columns
-- (text_document.py), and count columns in the client's units (position_codec.py).
--
-- Which file models which part:
--   Prelude          shared names, lists, Boolean tests, dicts in insertion order, integers
--   Codec            PositionCodec; Codec/Units, Scan, Convert and Ends prove its laws
--   Lines            str.splitlines(True), which TextDocument.lines uses
--   Document         TextDocument; Document/Splice and Edit are about changes, Words about words
--   Outcome          returns and exceptions over a state that stays when an exception is raised
--   Workspace        Workspace, with the changes of notebooks in Workspace/Notebook;
--                    Workspace/Stored, Consistency, Invariant, Documents, Cells and
--                    Structure prove its laws
--   Errors           JsonRpcException and its classes; Errors/Codes is about codes
--   Framing          the header of `_send_data` and the loop of io_.run; Framing/RoundTrip;
--                    Framing/Exact the loop of run_async over an asyncio stream
--   Transport        io_.run and run_websocket with the protocol; Transport/Same
--   Rpc              the state and the messages of JSONRPCProtocol; Rpc/Send, Generator and
--                    Handle its operations; Rpc/Values and Receive what is made of a body,
--                    Rpc/Receive/Kept about it; Rpc/Tally, Runs, Raises,
--                    Dispatch and OneResponse the counting of the answers; Rpc/Answers the
--                    ends of single requests; Rpc/Replies and below it the requests of one's own
--                    and the replies to them, Rpc/Heap the futures; Rpc/Shutdown lsp_shutdown
--                    (pygls/protocol/language_server.py) and Rpc/ServerExit `_server_exit`
--                    (pygls/client.py), with the theorems in Shutdown/Waiting, Dropped and
--                    ServerExit/Pending
--   Features         FeatureManager and its decorators; Features/Register
--   Options          the types of options (pygls/lsp/__init__.py) and their check
--   Client           get_capability (pygls/lsp/_capabilities.py), choose_position_encoding;
--                    Client/Overloads the overloads of get_capability, as scripts/generate_code.py
--                    writes them
--   Capabilities     ServerCapabilitiesBuilder, a `with_` definition for each of its methods in
--                    Capabilities/Build and below; Capabilities/Announced
--   Server           the built-in features of LanguageServerProtocol that keep the workspace
--                    (pygls/protocol/language_server.py); Server/View, Changes, Mirror and Invariant
--   Serving          JsonRPCServer (pygls/server.py): its pool, its stop event and its starts, and
--                    pygls/cli.py; Serving/Ends and Again
--   Methods          what the generated methods do, and their generator
--                    (scripts/generate_code.py); Methods/OfClient and below it the methods of
--                    pygls/lsp/_base_client.py, OfServer those of _base_server.py, Rows the
--                    messages; Attributes and Named about them
--   Command          workspace/executeCommand and the preparation of its arguments;
--                    Command/Arguments
--   Progress         Progress, and the cancellation of progress; Progress/Tracking
--   Uris             the functions of pygls/uris.py; Uris/Normal and RoundTrip
--   Tests            the theorems at concrete inputs
--
-- How the code corresponds. An object is a record and a method a function that takes it and
-- returns the new one; definitions keep the names of the source. A text is the list of its code
-- points and a byte stream the list of its bytes. Dicts keep their insertion order. An exception
-- is a value: of `Outcome` in the workspace, of `Done` in the protocol, of `Answer` in the
-- feature manager, and `none` where a document cannot be read from disk. A call of the server's
-- `report_server_error`, by the protocol or as the error handler of a loop, is recorded in
-- `reports`: what it does is up to the server (a `LanguageServer` may show the client a
-- message). A built-in feature of the server is two parts, before and after the call of the
-- user's handler, which is a parameter. Function objects and futures, which the source shares
-- and changes in place, stand on a heap and are referred to by numbers. What runs beside the
-- protocol, jobs of the thread pool and coroutines, is an event of its own (Rpc/OneResponse), so
-- that theorems over lists of events are about every interleaving.
--
-- Bounds and fuel. Lines, columns and lengths are natural numbers, which Python's integers are here.
-- The reading loop is on fuel: one round more than there are bytes is enough, and for the stream that
-- the server writes three rounds for each message and one at the end. Decimal digits are on fuel
-- `n + 1`. A handler that is a generator comes with a bound on how often it yields, which is any
-- number; it yields to handlers that are no generators, as the built-in features do.
--
-- In Serving, what is done with a body is a parameter, since it may raise anything; the loops
-- there are over the bodies that Framing reads. What is taken as a parameter elsewhere: the
-- disk, which uris of documents urlparse accepts, lsprotocol's types and tables, json and the
-- writer (what a body parses to, and whether they accept a message), the converter, urllib,
-- uuids, the bodies of generators, the text of exceptions' tracebacks, and the handlers of the
-- user, which may change the protocol; where a theorem needs that they do not answer requests on
-- their own and leave the writer in place, `IsTrusted` says so, and `IsUrllib` says what is
-- assumed of urllib.
--
-- What is not modelled: a broken pipe inside the protocol (in Serving it is one of the
-- exceptions that a handled body may raise); the readers and writers, which are input and
-- output; the path that a workspace and a document keep of their uri (but that of a workspace
-- may fail, and the uri of a document); the texts that the generator writes (docstrings, types,
-- imports), and the list of overloads in pygls/lsp/_capabilities.py, which follows from classes
-- of lsprotocol that are not part of the repository; several connections to a server at the same
-- time; and how a client is started and stopped (the rest of pygls/client.py), which creates
-- tasks and awaits them.
pub mod Prelude
pub mod Codec
pub mod Lines
pub mod Document
pub mod Outcome
pub mod Workspace
pub mod Errors
pub mod Framing
pub mod Rpc
pub mod Features
pub mod Client
pub mod Capabilities
pub mod Command
pub mod Methods
pub mod Options
pub mod Progress
pub mod Server
pub mod Serving
pub mod Transport
pub mod Uris
pub mod Tests
