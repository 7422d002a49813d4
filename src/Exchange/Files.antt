-- ===== src/Exchange/Files.antt =====
-- The transfer of files: `stream_files` of fluxrpc/transports/socket/client.py and
-- `handle_file_stream_message` of fluxrpc/transports/socket/server.py, which every message enters
-- in a task of its own. Connecting, the cipher and the wire are left out here.
pub mod Client
pub mod Server
pub mod Entries
pub mod Transfer
pub mod Race
