-- ===== src/Transports/Zmq.antt =====
-- fluxrpc/transports/zmq.py: the two transports over ZeroMQ. The package `zmq` is a parameter: the
-- socket of the client is `ReqSocket`, and the socket of the server is what it has received and
-- has still to hand out, and what was sent on it.
pub mod Server
pub mod Client
pub mod Serving
