-- ===== src/Transports/Wsgi.antt =====
-- fluxrpc/transports/wsgi.py and fluxrpc/transports/websocket.py: the transports in which a handler
-- puts a message into one queue, with a queue of its own for the reply, and waits for that.
pub mod Mailbox
pub mod Runs
pub mod Handle
