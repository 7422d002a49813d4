-- ===== src/Protocols.antt =====
-- fluxrpc/protocols/__init__.py: the contract of a protocol, as an interface, and the two protocols
-- behind it.
pub mod Abstract
pub mod Jsonrpc
pub mod Msgpack
