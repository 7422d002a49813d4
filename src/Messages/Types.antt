-- ===== src/Messages/Types.antt =====
-- fluxrpc/transports/socket/messages.py: `MessageTypes`, and the fields of the data classes with
-- their defaults.
use aiotinyrpc.Base.{ℕ, String, Bool, true, false, Option, none, some, List, [], ◌∷◌}
use aiotinyrpc.Python.Int.{pos}
use aiotinyrpc.Python.Value.{Value, null, bool, int, str, list, nil}

pub data MessageType : Type 0 where
  challenge_message challenge_reply_message auth_reply_message error_message : MessageType
  serialized_message rpc_request_message rpc_reply_message pty_message : MessageType
  pty_resize_message pty_closed_message session_key_message aes_key_message : MessageType
  rsa_public_key_message encrypted_message test_message proxy_message : MessageType
  proxy_response_message file_entry_stream_message liveliness_message : MessageType
  aes_rekey_message : MessageType

-- `MessageTypes[name].value`
unfoldable pub number : MessageType → ℕ
number challenge_message = 1
number challenge_reply_message = 2
number auth_reply_message = 3
number error_message = 4
number serialized_message = 5
number rpc_request_message = 6
number rpc_reply_message = 7
number pty_message = 8
number pty_resize_message = 9
number pty_closed_message = 10
number session_key_message = 11
number aes_key_message = 12
number rsa_public_key_message = 13
number encrypted_message = 14
number test_message = 15
number proxy_message = 16
number proxy_response_message = 17
number file_entry_stream_message = 18
number liveliness_message = 19
number aes_rekey_message = 20

abbrev pub all_types : List MessageType
all_types =
    challenge_message ∷ challenge_reply_message ∷ auth_reply_message ∷ error_message
    ∷ serialized_message ∷ rpc_request_message ∷ rpc_reply_message ∷ pty_message
    ∷ pty_resize_message ∷ pty_closed_message ∷ session_key_message ∷ aes_key_message
    ∷ rsa_public_key_message ∷ encrypted_message ∷ test_message ∷ proxy_message
    ∷ proxy_response_message ∷ file_entry_stream_message ∷ liveliness_message ∷ aes_rekey_message
    ∷ []

-- A field with its default, `none` for a field that has to be given.
abbrev pub Params : Type 0
Params = List (String × Option Value)

abbrev text : String → Option Value
text s = some (str s)

abbrev truth : Bool → Option Value
truth b = some (bool b)

abbrev empty_tuple : Option Value
empty_tuple = some (list nil)

unfoldable pub params : MessageType → Params
params challenge_reply_message =
    ("id", text "") ∷ ("signature", text "") ∷ ("close_connection", truth false) ∷ []
params challenge_message =
    ("id", text "")
    ∷ ("to_sign", text "")
    ∷ ("address", text "")
    ∷ ("auth_required", truth true)
    ∷ ("source", empty_tuple)
    ∷ []
params auth_reply_message = ("authenticated", truth false) ∷ ("source", empty_tuple) ∷ []
params error_message = ("error", none) ∷ []
params serialized_message = ("msg", none) ∷ []
params rpc_reply_message = ("chan_id", none) ∷ ("payload", none) ∷ []
params rpc_request_message = ("chan_id", none) ∷ ("payload", none) ∷ []
params pty_message = ("data", none) ∷ []
params pty_resize_message = ("rows", some (int (pos 0))) ∷ ("cols", some (int (pos 0))) ∷ []
params pty_closed_message = ("reason", none) ∷ []
params session_key_message = ("aes_key_message", none) ∷ ("rsa_encrypted_session_key", none) ∷ []
params aes_key_message = ("aes_key", none) ∷ []
params rsa_public_key_message = ("key", none) ∷ []
params encrypted_message = ("nonce", none) ∷ ("tag", none) ∷ ("ciphertext", none) ∷ []
params test_message = ("fill", none) ∷ ("text", text "TestEncryptionMessage") ∷ []
params proxy_message =
    ("proxy_required", truth false)
    ∷ ("proxy_target", text "")
    ∷ ("proxy_port", some null)
    ∷ ("proxy_ssl_required", truth false)
    ∷ []
params proxy_response_message = ("success", none) ∷ ("socket_details", empty_tuple) ∷ []
params file_entry_stream_message = ("data", none) ∷ ("path", text "") ∷ ("eof", truth false) ∷ []
params liveliness_message = ("chan_id", some null) ∷ ("text", text "Echo") ∷ []
params aes_rekey_message = ("fill", none) ∷ []
