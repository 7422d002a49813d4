-- ===== src/Framing/Server.antt =====
-- `read_socket_loop` of fluxrpc/transports/socket/server.py.
use aiotinyrpc.Base.{List, [], ◌∷◌, ◌++◌}
use aiotinyrpc.Framing.{Bytes, separator, rstrip, join}

-- What a turn of the loop reads: `readuntil` returns data, or it finds too much of it and `read`
-- returns that much, or one of them raises.
pub data Read : Type 0 where
  line overran : Bytes → Read
  fails : Read

abbrev pub whole : List Bytes → Bytes → Bytes
whole [] data_read = data_read
whole (c ∷ cs) data_read = join (c ∷ cs ++ data_read ∷ separator ∷ [])

-- The messages for which tasks are started, from a buffer on.
unfoldable pub read_messages : List Bytes → List Read → List Bytes
unfolding rstrip
read_messages buffer [] = []
read_messages buffer (line data_read ∷ reads) =
    rstrip (whole buffer data_read) ∷ read_messages [] reads
read_messages buffer (overran chunk ∷ reads) = read_messages (buffer ++ chunk ∷ []) reads
read_messages buffer (fails ∷ reads) = []
