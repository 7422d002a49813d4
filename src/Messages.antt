-- ===== src/Messages.antt =====
-- fluxrpc/transports/socket/messages.py: the messages of the socket transport. What `Cryptodome`
-- and the decoder do is given: `decrypt` and `deserialize` are those methods with the package `bson`
-- and the cipher in them, and `bson_decode` is the `bson.decode` that the log lines of the server call.
pub mod Types
pub mod Document
pub mod Binding
pub mod RoundTrip
use aiotinyrpc.Base.{ℕ, String, Bool, Option}
use aiotinyrpc.Python.Value.{Value, Values, nil}
use aiotinyrpc.Python.Exc.{Exc, Result, ok, err, raised, attribute_error}
use aiotinyrpc.Auth.{Reply, Challenge}

-- The classes of messages with their attributes.
pub data Message : Type 0 where
  challenge_reply : Reply → Message
  challenge : Challenge → Message
  auth_reply : Bool → Values → Message
  error : String → Message
  serialized : String → Message
  rpc_reply : ℕ → String → Message
  rpc_request : ℕ → String → Message
  pty : String → Message
  pty_resize : ℕ → ℕ → Message
  pty_closed : String → Message
  session_key : String → String → Message
  aes_key : String → Message
  rsa_public_key : String → Message
  encrypted : String → Message
  test : String → String → Message
  proxy : Bool → String → Value → Bool → Message
  proxy_response : Bool → Value → Message
  file_entry : String → String → Bool → Message
  liveliness : Option ℕ → String → Message
  aes_rekey : String → Message

pub record Crypto : Type 0 where
  pub encrypt : String → Message → Result String
  pub decrypt : String → String → Result Message
  pub rsa_encrypt : String → String → Result String
  pub rsa_decrypt : String → String → Result String
  pub public_of : String → String
  pub serialize : Message → String
  pub deserialize : String → Result Message
  pub bson_decode : String → Result Value

abbrev pub no_attribute : Exc
no_attribute = raised attribute_error nil

-- `msg.decrypt(key)`, a method of encrypted messages alone
abbrev pub decrypt_message : Crypto → String → Message → Result Message
decrypt_message c key (encrypted text) = c.decrypt key text
decrypt_message c key m = err no_attribute

-- `msg.encrypt(key)`
abbrev pub sealed : Result String → Result Message
sealed (ok text) = ok (encrypted text)
sealed (err e) = err e
