-- ===== src/Transports.antt =====
-- fluxrpc/transports/__init__.py: what the abstract classes `ServerTransport` and `ClientTransport`
-- ask of a transport, as an interface that the transports of the children fill. The packages
-- `pika`, `zmq`, `werkzeug`, `geventwebsocket` and `requests` are parameters of those.
pub mod Abstract
pub mod RabbitMq
pub mod Zmq
pub mod Wsgi
pub mod Http
pub mod WebSocketClient
pub mod Cgi
pub mod Callback
