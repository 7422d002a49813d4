-- ===== src/Transports/RabbitMq/RoundTrip.antt =====
-- fluxrpc/transports/rabbitmq.py: a client and a server over RabbitMQ. The broker delivers what is
-- published with its properties and its body.
use aiotinyrpc.Base.{
  ℕ, suc, ◌≡◌, ◌≤◌, refl, ◌∙◌, String, str_eq_iff, true, false, none, some, List, [], ◌∷◌, ◌++◌,
  arith, All,
}
use aiotinyrpc.Transports.Abstract.{Bytes, serve}
use aiotinyrpc.Transports.RabbitMq.{Delivery, Published, Turn}
use aiotinyrpc.Transports.RabbitMq.Server.{
  Server, server_transport, send_reply, reply_of, on_receive, process_data_events, receive_message,
}
use aiotinyrpc.Transports.RabbitMq.Client.{Client, returned, request_of, send_message}
use aiotinyrpc.Transports.RabbitMq.Replies.{send_message-first_reply, last_reply, first_reply}

abbrev pub delivered_as : ℕ → Published → Delivery
delivered_as tag p = record { delivery_tag = tag; props = p.properties; body = p.body }

module _ (str : ℕ → String) (str_injective : (m n : ℕ) → str m ≡ str n → m ≡ n) where
  -- A reply to an earlier request of the client.
  abbrev pub IsStale : Client → Delivery → Type 0
  IsStale c d = (n : ℕ) × (n ≤ c.id_counter) × (d.props.correlation_id ≡ str n)

  last_reply-IsStale :
      (c : Client) (t : Turn) → All (IsStale c) t → last_reply (str (suc c.id_counter)) t ≡ none
  unfolding last_reply
  last_reply-IsStale c [] _ = refl
  last_reply-IsStale c (d ∷ ds) ((n, h, e), stale) = ground (
    arith,
    last_reply-IsStale c ds stale,
    str_eq_iff (str (suc c.id_counter)) d.props.correlation_id,
    str_injective (suc c.id_counter) n,
  )

  first_reply-IsStale :
      (c : Client) (old : List Turn) (d : Delivery)
      → All (All (IsStale c)) old
      → d.props.correlation_id ≡ str (suc c.id_counter)
      → first_reply (str (suc c.id_counter)) (old ++ ((d ∷ []) ∷ [])) ≡ returned (some d.body)
  unfolding first_reply last_reply
  first_reply-IsStale c [] d _ h =
      ground (arith, str_eq_iff (str (suc c.id_counter)) d.props.correlation_id)
  first_reply-IsStale c (t ∷ ts) d (stale, older) h =
      ground (arith, last_reply-IsStale c t stale, first_reply-IsStale c ts d older h)

  -- The server that receives a client's request publishes one reply, and the client returns that
  -- reply when it comes, past all replies to the client's earlier requests.
  pub send_message-serve :
      (respond : Bytes → Bytes) (message : Bytes) (c : Client) (s : Server) (old : List Turn)
      (tag reply_tag : ℕ)
      → s.message_received ≡ false
      → All (All (IsStale c)) old
      → let request = delivered_as tag (request_of str message (suc c.id_counter) c) in
        let reply = reply_of request (respond message) s in
        let turns = old ++ ((delivered_as reply_tag reply ∷ []) ∷ []) in
        ((serve server_transport respond 1 (s, (request ∷ []) ∷ [])).1.0.published
          ≡ s.published ++ (reply ∷ []))
        × (reply.routing_key ≡ some c.callback_queue)
        × ((send_message str message true turns c).0 ≡ returned (some (respond message)))
  unfolding serve receive_message process_data_events on_receive send_reply reply_of request_of
  send_message-serve respond message c s old tag reply_tag idle stale =
      let request = delivered_as tag (request_of str message (suc c.id_counter) c) in
      let reply = delivered_as reply_tag (reply_of request (respond message) s) in
      (
        ground arith,
        refl,
        send_message-first_reply str message (old ++ ((reply ∷ []) ∷ [])) c
            ∙ first_reply-IsStale c old reply stale refl,
      )
