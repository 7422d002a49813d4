-- ===== src/Lib.antt =====
-- A verification library for fluxrpc: remote procedure calls over JSON-RPC and MessagePack-RPC,
-- with a socket transport that challenges, encrypts and multiplexes. Paths are from the
-- repository's root.
--
-- A client (fluxrpc/client.py) has its protocol make a request, sends it through its transport and
-- has the protocol read the reply. A server (fluxrpc/server/__init__.py) has the protocol parse the
-- message, the dispatcher (fluxrpc/dispatch/__init__.py) find and call the method, and sends the
-- response that the request makes of the result or of the exception. The socket transport carries
-- messages on numbered channels over one connection, which it opens with a challenge
-- (fluxrpc/auth/__init__.py) and an exchange of keys. The other transports (fluxrpc/transports)
-- hand the messages to a network package.
--
-- Which file models what:
-- - Base: the names of the libraries, tests on numbers, dicts and texts. Python: integers, the
--   values that cross the wire with Python's `==` and truth, the exceptions of fluxrpc/exc.py and
--   of the two protocols, and results that may be exceptions.
-- - Jsonrpc: fluxrpc/protocols/jsonrpc.py. The parent has the messages, how they become dicts and
--   the errors, Jsonrpc/Parse the parser of requests (`parse_request`, `_parse_subrequest`),
--   Jsonrpc/Protocol the state (`drawn`, the ids drawn from the generator, and `pending`, that is
--   `_pending_replies`), `create_request`, `parse_reply`, `_parse_subreply` and `raise_error`.
-- - Msgpack: fluxrpc/protocols/msgpackrpc.py, whose messages are lists, with its parsers in
--   Msgpack/Parse and `raise_error` in Msgpack/Errors.
-- - Protocols: the abstract classes of fluxrpc/protocols/__init__.py as an interface with laws
--   (Protocols/Abstract), and the two protocols behind it.
-- - Dispatch: the dispatcher as a tree, as `method_map` and `subdispatchers` span it, `get_method`,
--   `add_method`, `add_plugin`, `register_instance`, `__add__`, and `_dispatch`.
--   Dispatch/Decorators has `public` and `create`, Dispatch/Storage the dicts that `pass_storage`
--   binds to functions.
-- - Server: `handle_message`, with `dispatch` and batches. An exception that it raises ends its
--   task. Server/Loop has `serve_forever` as runs of the steps in which messages come in and tasks
--   run.
-- - Client: `call` and `_send_and_handle_reply`, `RPCProxy` in Client/Proxy, and `call_all` in
--   Client/Several.
-- - Channels: `Channel`, `ChannelManager` and `send_message` of
--   fluxrpc/transports/socket/client.py, and the delivery of replies in its `process_messages`.
-- - Auth: `SignatureAuthProvider`. SocketServer: one peer of fluxrpc/transports/socket/server.py.
--   Its handlers (SocketServer/Handlers) are functions of the state to an outcome (go on, raise,
--   end the program); SocketServer/Receive has `process_messages` and the steps of `handle_client`
--   between its waits, SocketServer/Peers the group of all peers, SocketServer/Forwarding the pipes
--   of forwarded connections and the terminal of a peer, SocketServer/Listening the start and the
--   stop of the server.
-- - Messages: the messages of fluxrpc/transports/socket/messages.py. Messages/Types has their
--   numbers, fields and defaults, and Messages/Document `serialize` and `deserialize`.
--   SocketClient: the connection of fluxrpc/transports/socket/client.py, with the handlers of
--   messages in SocketClient/Handlers and `connect` between its waits in SocketClient/Connect,
--   `ensure_connected` in SocketClient/Reconnect and `Session` in SocketClient/Session; the other
--   children are about runs of these.
-- - Exchange: the two ends of a socket, which read what the other has sent; Exchange/Files is the
--   transfer of files by `stream_files` and `handle_file_stream_message`, Exchange/Terminal what is
--   written to a terminal. Framing: the bytes of messages and separators, as the read loops of the
--   server (Framing/Server) and of the client (Framing/Client) take them apart.
-- - Transports: `ServerTransport` as an interface (Transports/Abstract), and the transports of
--   fluxrpc/transports, one module each: rabbitmq.py with both of its ends and the two together,
--   zmq.py, wsgi.py and websocket.py (Transports/Wsgi), http.py, websocketclient.py
--   (Transports/WebSocketClient), cgi.py and callback.py.
-- - Tests: the definitions and theorems on concrete data.
--
-- Conventions. A method that changes its object is a function to a pair of its result and the new
-- state, or to the new state. A task runs from one wait to the next without interruption, and tasks
-- interleave as sequences of such steps: `run` of a list of events for either end of a socket,
-- `perform_all` of a list of operations for the channels. A call that blocks has no result as long
-- as what it waits for has not happened. Every method that the server calls returns or raises, and
-- the tasks of `handle_message` are taken up in the order in which their methods do. Numbers are
-- natural numbers and Python's integers, which have no bounds. `ensure_connected` is given a number
-- of turns, and has no result when they are over. `stream_files` has one round for each byte of a
-- file and one for its end, and a task that handles a part of a file waits three times at most.
-- `isinstance` climbs at most six classes: none lies deeper than five.
--
-- Parameters: the packages bson, msgpack, bitcoin and Cryptodome, the encoding of batches as JSON,
-- what Python prints of a value that is no text (`render`), the results of the user's methods, the
-- fit of arguments as `inspect.getcallargs` finds it, the random texts, and the transport of the
-- client. `bson_decode` is what the log lines of the socket server call on a payload. `IsBson` and
-- `IsMsgpack` state what bson and msgpack document, and `IsReq` what zmq documents of its REQ
-- sockets. What a broker delivers, what a read of a file or a pipe gives and what a look at a
-- terminal finds is given as a list. A tuple is a list, as it is for bson.
--
-- Not modelled: the connection that `stream_files` makes and ends, and a transport whose
-- `send_reply` raises; floats and the special types of BSON; logging; two names of one dispatcher
-- object, since dispatchers are values; `batch_call` of the client; the TLS upgrade of a
-- connection; failures of a write to the socket; two tasks of a client that wait for one event at
-- once; the class methods `create` of the transports, which make the objects of the network
-- packages; fluxrpc/server/gevent.py, whose `start` never runs the loop of the server.
pub mod Base
pub mod Python
pub mod Jsonrpc
pub mod Dispatch
pub mod Server
pub mod Channels
pub mod Msgpack
pub mod Auth
pub mod Messages
pub mod SocketServer
pub mod Client
pub mod SocketClient
pub mod Exchange
pub mod Framing
pub mod Tests
pub mod Protocols
pub mod Transports
