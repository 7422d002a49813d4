-- ===== src/Tests/Exchange.antt =====
-- Both ends of the socket together, on concrete data.
use aiotinyrpc.Base.{String, str_eq_refl, ◌≡◌, ◌≢◌, refl, ap, true, false, none, some, [], ◌∷◌}
use aiotinyrpc.Python.Value.{nil, dict, end}
use aiotinyrpc.Python.Exc.{ok}
use aiotinyrpc.Auth.{auth_message, generate_challenge}
use aiotinyrpc.SocketServer.Receive as ServerReceive
use aiotinyrpc.SocketClient.{new_transport}
use aiotinyrpc.SocketClient.Handlers.{is_proxied}
use aiotinyrpc.Channels.{Channel}
use aiotinyrpc.Messages.{Message}
use aiotinyrpc.Exchange.Calls.{exchange_call, IsAnswered, exchange_call-IsAnswered}
use aiotinyrpc.Exchange.Rekey.{exchange_rekey, IsRekeyed, exchange_rekey-IsRekeyed}
use aiotinyrpc.Exchange.{Ends}
use aiotinyrpc.Exchange.Keys.{exchange_keys, exchange_keys-Shares, Shares}
use aiotinyrpc.Exchange.Greeting.{greet, greet-IsGreeted, IsGreeted}
use aiotinyrpc.Tests.SocketClient.{
  copies, server, client, asked, answer, cipher, draws, fresh, secured,
}

abbrev both : Ends
both = record { server = ServerReceive.new_state (some server) nil; client = fresh }

abbrev random : ServerReceive.Given
random = record { drawn = "r1"; forwarded = none }

exchange_keys-Shares_example :
    Shares cipher copies "K1" (exchange_keys cipher copies "private" draws random draws random both)
unfolding new_transport
exchange_keys-Shares_example =
    exchange_keys-Shares cipher copies "private" "sealed key" "sealed session" "question" "response"
      draws draws random random both (refl, refl) (refl, refl) (refl, refl) (refl, refl)
      (refl, refl) (refl, refl) (refl, (refl, (refl, (refl, (refl, tt)))))

signs :
    (secret t : String)
    → client.key ≡ some secret
    → copies.verify server.address t (copies.sign secret t) ≡ ok true
signs secret t e = ap ok (str_eq_refl t)

not_empty : ◌≢◌ {A = String} "text" ""
not_empty e = cc e

greet-IsGreeted_example : IsGreeted (greet cipher copies "i1" "text" draws random draws both)
unfolding generate_challenge auth_message new_transport is_proxied
greet-IsGreeted_example =
    greet-IsGreeted cipher copies server (record server { challenges = ("i1", "text") ∷ [] }) client
      asked answer "i1" "text" draws draws random both signs (refl, refl) (refl, refl) refl
      not_empty refl refl (refl, (refl, (refl, tt)))

abbrev joined : Ends
joined = record {
  server = record (ServerReceive.new_state none nil) {
    peer = record (ServerReceive.new_state none nil).peer {
      encrypted_flag = true;
      key_data = record { aes = "K0"; rsa_private = ""; rsa_public = "" };
    };
  };
  client = secured;
}

abbrev lane : Channel Message
lane = record { id = 0; exclusive = false; in_use = true; q = [] }

-- The client has two channels.
abbrev talking : Ends
talking = record joined {
  client = record secured {
    channels = record { channels = record lane { id = 1 } ∷ lane ∷ []; channel_count = 2 };
  };
}

exchange_call-IsAnswered_example :
    IsAnswered cipher copies 0 "do it" "done" [] talking
      (exchange_call cipher copies random draws 0 "do it" "done" talking)
unfolding new_transport
exchange_call-IsAnswered_example =
    exchange_call-IsAnswered cipher copies random draws 0 "do it" "done" "K0" "asked" "said" []
      (dict end) (dict end) talking refl (refl, refl) (refl, refl) refl (refl, refl) (refl, refl)
      (refl, refl) (refl, refl)

exchange_rekey-IsRekeyed_example :
    IsRekeyed cipher copies "K0" "K1" (exchange_rekey cipher copies "r2" random draws random joined)
unfolding new_transport
exchange_rekey-IsRekeyed_example =
    exchange_rekey-IsRekeyed cipher copies "r2" "K0" "asking" "public text" "sealed key"
      "sealed session" "keys" random random draws joined (refl, refl, refl) (refl, refl)
      (refl, refl) (refl, refl) (refl, refl) (refl, refl) (refl, refl)
      (refl, (refl, (refl, (refl, tt))))
