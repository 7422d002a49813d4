-- ===== src/Tests/SocketClient.antt =====
-- The client's end of the socket on concrete data.
use aiotinyrpc.Base.{
  String, str_eq, ◌≡◌, ◌⊎◌, inl, inr, refl, true, false, none, some, List, [], ◌∷◌, if◌then◌else◌,
}
use aiotinyrpc.Base.Text.{reverse}
use aiotinyrpc.Python.Value.{dict, end, str, nil}
use aiotinyrpc.Python.Exc.{Exc, Result, ok, err, raised, value_error}
use aiotinyrpc.Messages.{
  aes_rekey, rpc_request, rpc_reply, Message, Crypto, rsa_public_key, session_key, aes_key,
  encrypted, test, challenge, challenge_reply, auth_reply,
}
use aiotinyrpc.Auth.{Bitcoin, Provider, Reply, Challenge}
use aiotinyrpc.Channels.{Channel}
use aiotinyrpc.SocketClient.{Transport, new_transport}
use aiotinyrpc.SocketClient.Handlers.{is_proxied, Drawn, decrypt, end_rekey, message}
use aiotinyrpc.SocketClient.Connect.{
  opened, fails, Connection, for_encryption, connect, run, receives, resumes, Event, times_out,
  is_failed,
}
use aiotinyrpc.SocketClient.Failures.{IsIdle}
use aiotinyrpc.SocketClient.Idle.{run-IsIdle}
use aiotinyrpc.SocketClient.Secure.{IsTested, HasKeys}
use aiotinyrpc.SocketClient.Runs.{run-IsTested, run-HasKeys}
use aiotinyrpc.SocketClient.Rekey.{handle_public_key-both, rekeyed_by}
use aiotinyrpc.SocketClient.Session.{new_session}
use aiotinyrpc.SocketClient.Session as Session
use aiotinyrpc.SocketClient.Requirements.{IsAsked, attempt, connect-IsAsked}

-- A signature is the text itself.
abbrev pub copies : Bitcoin
copies = record {
  Secret = String;
  read_secret = λ key. key;
  sign = λ secret t. t;
  verify = λ address t signature. ok (str_eq t signature);
}

abbrev pub server : Provider
server = record { key = none; address = some "1Fx"; challenges = [] }

abbrev pub client : Provider
client = record { key = some "K"; address = none; challenges = [] }

abbrev pub broken : Exc
broken = raised value_error nil

abbrev pub asked : Challenge
asked = record { id = "i1"; to_sign = "text"; address = "1Fx"; auth_required = true; source = nil }

abbrev pub answer : Reply
answer = record { id = "i1"; signature = "text"; close_connection = false }

-- Messages that cross the wire, under names.
abbrev pub written : Message → String
written (challenge m) = "challenge"
written (challenge_reply r) = "reply"
written (auth_reply v source) = "accepted"
written (rsa_public_key pem) = "public"
written (session_key a e) = "session"
written (encrypted text) = text
written m = "other"

abbrev pub read : String → Result Message
read t =
    if str_eq t "challenge"
    then ok (challenge asked)
    else if str_eq t "reply"
    then ok (challenge_reply answer)
    else if str_eq t "accepted"
    then ok (auth_reply true nil)
    else if str_eq t "public"
    then ok (rsa_public_key "pem")
    else if str_eq t "session"
    then ok (session_key "sealed key" "sealed session")
    else ok (encrypted t)

-- The session's own key opens the new key, the new key all else.
abbrev pub open_sealed : String → String → Result Message
open_sealed key t =
    if str_eq t "sealed key"
    then ok (aes_key "K1")
    else if str_eq t "asked"
    then ok (rpc_request 0 "do it")
    else if str_eq t "asking"
    then ok (aes_rekey "r2")
    else if str_eq t "public text"
    then ok (rsa_public_key "pem")
    else if str_eq t "keys"
    then ok (session_key "sealed key" "sealed session")
    else if str_eq t "said"
    then ok (rpc_reply 0 "done")
    else if str_eq key "K1"
    then (if str_eq t "question"
        then ok (test "r1" "TestEncryptionMessage")
        else ok (test (reverse "r1") "TestEncryptionMessageResponse"))
    else err broken

abbrev pub seal : String → Message → Result String
seal key (aes_key k) = ok "sealed key"
seal key (test fill text) =
    if str_eq text "TestEncryptionMessage" then ok "question" else ok "response"
seal key (rpc_request i payload) = ok "asked"
seal key (rpc_reply i payload) = ok "said"
seal key (aes_rekey fill) = ok "asking"
seal key (rsa_public_key pem) = ok "public text"
seal key (session_key m k) = ok "keys"
seal key m = ok "other"

abbrev pub cipher : Crypto
cipher = record {
  encrypt = seal;
  decrypt = open_sealed;
  rsa_encrypt = λ public t. ok "sealed session";
  rsa_decrypt = λ private t. ok "S1";
  public_of = λ private. "pem";
  serialize = written;
  deserialize = read;
  bson_decode = λ t. ok (dict end);
}

abbrev pub draws : Drawn
draws = record { new_key = "K1"; session = "S1" }

abbrev pub fresh : Transport
fresh = new_transport (some client) "" (str "") false

fresh-IsIdle : IsIdle fresh
unfolding new_transport
fresh-IsIdle = record {
  no_channels = refl;
  no_socket = refl;
  not_connected = refl;
  not_connecting = refl;
  not_disconnecting = refl;
  not_encrypted = refl;
  not_authenticated = refl;
  auth_required = refl;
}

run-IsIdle_example :
    IsIdle
      (run cipher copies (times_out ∷ []) (connect (fails ∷ opened ∷ []) false fresh)).transport
    × (is_failed
          (run cipher copies
            (times_out ∷ [])
            (connect (fails ∷ opened ∷ []) false fresh)).transport.failed_on
        ≡ true)
unfolding run connect new_transport
run-IsIdle_example =
    run-IsIdle cipher copies (fails ∷ opened ∷ []) (times_out ∷ []) fresh fresh-IsIdle (refl, tt)
      refl

-- The only channel of a transport, an exclusive one.
abbrev exclusive : Channel Message
exclusive = record { id = 0; exclusive = true; in_use = false; q = [] }

-- `connect` waits for the encryption.
abbrev waiting : Connection
waiting = record {
  transport = record fresh { socket = true; connecting = true };
  phase = for_encryption 0;
  exited = false;
}

abbrev arrivals : List Event
arrivals = receives draws "public" ∷ receives draws "question" ∷ resumes [] ∷ []

abbrev IsDrawn : String → Type 0
IsDrawn k = k ≡ "K1"

abbrev IsSent : String → Type 0
IsSent t = (t ≡ "public") ⊎ (t ≡ "question")

run-IsTested_example : IsTested cipher IsDrawn IsSent
unfolding new_transport run
run-IsTested_example =
    run-IsTested cipher copies IsDrawn IsSent arrivals waiting refl refl
      ((refl, inl refl), ((refl, inr refl), (tt, tt))) refl

run-HasKeys_example : HasKeys IsDrawn (run cipher copies arrivals waiting).transport.aes_keys
unfolding new_transport
run-HasKeys_example =
    run-HasKeys cipher copies IsDrawn arrivals waiting refl refl
      ((refl, tt), ((refl, tt), (tt, tt)))

abbrev pub secured : Transport
secured = record fresh { socket = true; encrypted = true; aes_keys = "K0" ∷ [] }

handle_public_key-both_example :
    (decrypt cipher (encrypted "question") (rekeyed_by cipher "pem" "K1" "S1" secured)
      ≡ message (test "r1" "TestEncryptionMessage"))
    × ((end_rekey (rekeyed_by cipher "pem" "K1" "S1" secured)).aes_keys ≡ "K1" ∷ [])
handle_public_key-both_example =
    handle_public_key-both cipher "pem" "K1" "S1" "K0" secured (encrypted "question")
      (test "r1" "TestEncryptionMessage") refl refl (inl refl)

connect-IsAsked_example : IsAsked asked (
    Session.connect
      (attempt cipher copies draws "challenge")
      ""
      (new_session (new_transport none "" (str "") false)))
unfolding new_transport is_proxied
connect-IsAsked_example =
    connect-IsAsked cipher copies "" (str "") false draws "challenge" asked refl refl refl
