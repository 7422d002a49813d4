-- ===== src/Tests/SocketServer.antt =====
-- A provider, its challenges and the peers of a socket server, on concrete data.
use aiotinyrpc.Base.{
  ℕ, String, str_eq, str_eq_refl, ◌≡◌, ◌≢◌, refl, ap, true, false, none, some, [], ◌∷◌,
  if◌then◌else◌,
}
use aiotinyrpc.Base.Text.{reverse}
use aiotinyrpc.Python.Value.{nil, dict, end}
use aiotinyrpc.Python.Exc.{Exc, Result, ok, err, raised, value_error}
use aiotinyrpc.Messages.{
  Message, challenge_reply, rpc_request, session_key, encrypted, test, Crypto,
}
use aiotinyrpc.Auth.{
  Bitcoin, Provider, Reply, Challenge, auth_message, verify_auth, generate_challenge,
  verify_auth-auth_message,
}
use aiotinyrpc.SocketServer.{State, state_of}
use aiotinyrpc.SocketServer.Handlers.{parse_session_key_message}
use aiotinyrpc.SocketServer.Receive.{Given, Connection, new_state, handle, run, waits_challenge}
use aiotinyrpc.SocketServer.Requests.{requests, run-requests}
use aiotinyrpc.SocketServer.Handshake.{handle-encrypted}
use aiotinyrpc.SocketServer.Peers.{PeerGroup}

-- A signature is the text itself.
abbrev copies : Bitcoin
copies = record {
  Secret = String;
  read_secret = λ key. key;
  sign = λ secret t. t;
  verify = λ address t signature. ok (str_eq t signature);
}

abbrev server : Provider
server = record { key = none; address = some "1Fx"; challenges = [] }

abbrev client : Provider
client = record { key = some "K"; address = none; challenges = [] }

abbrev empty_challenge : Challenge
empty_challenge = record { id = ""; to_sign = ""; address = ""; auth_required = true; source = nil }

abbrev waiting : Provider
waiting = record server { challenges = ("i1", "text") ∷ [] }

abbrev answer : Reply
answer = record { id = "i1"; signature = "text"; close_connection = false }

signs :
    (secret t : String)
    → client.key ≡ some secret
    → copies.verify server.address t (copies.sign secret t) ≡ ok true
signs secret t e = ap ok (str_eq_refl t)

not_empty : ◌≢◌ {A = String} "text" ""
not_empty e = cc e

verify_auth-auth_message_example :
    ((verify_auth copies waiting answer).0 ≡ ok true)
    × ((verify_auth copies (verify_auth copies waiting answer).1 answer).0 ≡ ok false)
unfolding generate_challenge auth_message
verify_auth-auth_message_example =
    verify_auth-auth_message copies server waiting client empty_challenge
      (record empty_challenge { id = "i1"; to_sign = "text"; address = "1Fx" }) "i1" "text" answer
      answer signs refl not_empty refl refl

abbrev broken : Exc
broken = raised value_error nil

abbrev read : String → Result Message
read t =
    if str_eq t "reply"
    then ok (challenge_reply answer)
    else if str_eq t "call"
    then ok (rpc_request 3 "do it")
    else if str_eq t "junk"
    then ok (rpc_request 4 "{")
    else if str_eq t "key"
    then ok (session_key "k" "bad")
    else if str_eq t "aes"
    then ok (encrypted "sealed")
    else err broken

abbrev cipher : Crypto
cipher = record {
  encrypt = λ key m. ok "sealed";
  decrypt = λ key t.
      if str_eq t "answer"
      then ok (test (reverse "r1") "TestEncryptionMessageResponse")
      else ok (Message.aes_key "secret");
  rsa_decrypt = λ private t. if str_eq t "good" then ok "session" else err broken;
  public_of = λ private. private;
  rsa_encrypt = λ public t. ok t;
  serialize = λ m. "";
  deserialize = read;
  bson_decode = λ t. if str_eq t "do it" then ok (dict end) else err (raised value_error nil);
}

abbrev draws : Given
draws = record { drawn = "r1"; forwarded = none }

abbrev IsSent : String → Type 0
IsSent t = t ≡ "reply"

abbrev stranger : Connection
stranger = record { state = new_state (some server) nil; phase = waits_challenge; exited = false }

abbrev named : ℕ → String → String
named i payload = if str_eq payload "do it" then "call" else "junk"

run-requests_example :
    run cipher copies (requests draws named ((4, "{") ∷ (3, "do it") ∷ [])) stranger
    ≡ record stranger {
      state = record (new_state (some server) nil) { rpc_messages = (3, "do it") ∷ [] };
    }
run-requests_example =
    run-requests cipher copies draws named stranger ((4, "{") ∷ (3, "do it") ∷ [])
      (refl, (refl, tt)) refl refl refl

abbrev tested : State
tested = state_of (handle cipher copies draws (session_key "aes" "good") (new_state none nil))

handle-encrypted_example :
    (text : String) × (encrypted "answer" ≡ encrypted text)
    × (cipher.decrypt tested.peer.key_data.aes text
        ≡ ok (test (reverse tested.peer.random) "TestEncryptionMessageResponse"))
unfolding handle parse_session_key_message reverse
handle-encrypted_example =
    handle-encrypted cipher copies draws (encrypted "answer") tested refl refl

abbrev group : PeerGroup
group = record { peers = ("a", 1) ∷ ("b", 2) ∷ []; closed_writers = [] }
