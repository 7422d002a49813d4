-- ===== src/Tests/RabbitMq.antt =====
-- A client and a server over RabbitMQ.
use aiotinyrpc.Tests.Tally.{tally, tally_injective}
use aiotinyrpc.Base.{◌≡◌, refl, true, false, none, some, [], ◌∷◌, ◌++◌, arith}
use aiotinyrpc.Transports.Abstract.{Bytes, serve}
use aiotinyrpc.Transports.RabbitMq.{Delivery}
use aiotinyrpc.Transports.RabbitMq.Server as Server
use aiotinyrpc.Transports.RabbitMq.Server.{server_transport, reply_of}
use aiotinyrpc.Transports.RabbitMq.Serving.{deliveries, requests, serve-singles}
use aiotinyrpc.Transports.RabbitMq.Client as Client
use aiotinyrpc.Transports.RabbitMq.Client.{Outcome, returned, waits, request_of, send_message}
use aiotinyrpc.Transports.RabbitMq.Replies.{first_reply, send_message-first_reply}
use aiotinyrpc.Transports.RabbitMq.RoundTrip.{delivered_as, send_message-serve}

abbrev client : Client.Client
client = record (Client.started "" "tasks" "replies") { id_counter = 2 }

abbrev server : Server.Server
server = Server.started ""

abbrev twice : Bytes → Bytes
twice bs = bs ++ bs

-- A reply to the second request, which the client no longer waits for.
abbrev stale : Delivery
stale = record {
  delivery_tag = 8;
  props = record { reply_to = none; correlation_id = tally 2 };
  body = 0 ∷ [];
}

abbrev request : Delivery
request = delivered_as 5 (request_of tally (7 ∷ []) 3 client)

abbrev reply : Delivery
reply = delivered_as 9 (reply_of request (7 ∷ 7 ∷ []) server)

send_message-serve_example :
    ((serve server_transport twice 1 (server, (request ∷ []) ∷ [])).1.0.published
      ≡ reply_of request (7 ∷ 7 ∷ []) server ∷ [])
    × ((reply_of request (7 ∷ 7 ∷ []) server).routing_key ≡ some "replies")
    × ((send_message tally (7 ∷ []) true ((stale ∷ []) ∷ (reply ∷ []) ∷ []) client).0
        ≡ returned (some (7 ∷ 7 ∷ [])))
unfolding Server.started Client.started
send_message-serve_example =
    send_message-serve tally tally_injective twice (7 ∷ []) client server ((stale ∷ []) ∷ []) 5 9
      refl (((2, omega arith, refl), tt), tt)

abbrev other : Delivery
other = record {
  delivery_tag = 6;
  props = record { reply_to = some "others"; correlation_id = "x" };
  body = 1 ∷ 2 ∷ [];
}

serve-singles_example :
    let turns = (request ∷ []) ∷ [] ∷ (other ∷ []) ∷ [] in
    let r = serve server_transport twice 2 (server, turns) in
    (r.0 ≡ requests (request ∷ other ∷ []))
    × (r.1.0.acked ≡ 5 ∷ 6 ∷ [])
    × (r.1.0.message_received ≡ false)
unfolding deliveries Server.started
serve-singles_example =
    serve-singles twice ((request ∷ []) ∷ [] ∷ (other ∷ []) ∷ []) server refl
      (omega arith, (omega arith, (omega arith, tt)))

-- Two requests in one turn: the first one gets no reply and is not acknowledged.
one_lost :
    let r = serve server_transport twice 2 (server, (request ∷ other ∷ []) ∷ []) in
    (r.0 ≡ requests (other ∷ [])) × (r.1.0.acked ≡ 6 ∷ [])
unfolding serve Server.receive_message Server.process_data_events Server.on_receive
    Server.send_reply Server.started
one_lost = (refl, refl)

send_message-first_reply_example :
    (send_message tally (7 ∷ []) true ((stale ∷ []) ∷ []) client).0
    ≡ first_reply (tally 3) ((stale ∷ []) ∷ [])
send_message-first_reply_example =
    send_message-first_reply tally (7 ∷ []) ((stale ∷ []) ∷ []) client
