-- ===== src/Tests.antt =====
-- Runs on concrete inputs, and the theorems at concrete data.
mod Jsonrpc
mod Dispatch
mod Server
mod Channels
mod Msgpack
mod SocketServer
mod Framing
mod SocketClient
mod Exchange
mod RabbitMq
mod Transports
mod Messages
mod Files
mod Serving
mod Tally
