-- ===== src/Transports/RabbitMq/Server.antt =====
-- fluxrpc/transports/rabbitmq.py: `RabbitMQServerTransport`
use aiotinyrpc.Base.{
  ℕ, ◌≡◌, refl, String, Bool, true, false, Option, none, some, List, [], ◌∷◌, ◌++◌, arith,
  if◌then◌else◌,
}
use aiotinyrpc.Transports.Abstract.{Bytes, ServerTransport}
use aiotinyrpc.Transports.RabbitMq.{Delivery, Published, Turn}

-- `context` and `message` are one delivery, and `none` before `on_receive` has set them.
pub record Server : Type 0 where
  pub exchange : String
  pub context : Option Delivery
  pub message_received : Bool
  pub published : List Published
  pub acked : List ℕ

-- `__init__`
unfoldable pub started : String → Server
started exchange = record {
  exchange = exchange;
  context = none;
  message_received = false;
  published = [];
  acked = [];
}

-- `on_receive`
unfoldable pub on_receive : Delivery → Server → Server
on_receive d s = record s { context = some d; message_received = true }

-- `process_data_events` with its deliveries
unfoldable pub process_data_events : Turn → Server → Server
unfolding on_receive
process_data_events [] s = s
process_data_events (d ∷ ds) s = process_data_events ds (on_receive d s)

-- `receive_message`: what it returns, or `none` while it waits, and the turns that are left.
abbrev pub Waited : Type 0
Waited = Option Delivery × (Server × List Turn)

abbrev held : Server → List Turn → Waited
held s turns = (if s.message_received then s.context else none, (s, turns))

unfoldable pub receive_message : List Turn → Server → Waited
unfolding process_data_events
receive_message [] s = held s []
receive_message (t ∷ ts) s =
    let rest = receive_message ts (process_data_events t s) in
    if s.message_received then held s (t ∷ ts) else rest

-- What `send_reply` publishes.
unfoldable pub reply_of : Delivery → Bytes → Server → Published
reply_of d reply s = record {
  exchange = s.exchange;
  routing_key = d.props.reply_to;
  properties = record { reply_to = none; correlation_id = d.props.correlation_id };
  body = reply;
}

-- `send_reply`
unfoldable pub send_reply : Delivery → Bytes → Server → Server
send_reply d reply s = record s {
  published = s.published ++ (reply_of d reply s ∷ []);
  acked = s.acked ++ (d.delivery_tag ∷ []);
  message_received = false;
}

-- What `receive_message` returns is the message that the server holds from then on.
receive_message-held :
    (turns left : List Turn) (s s' : Server) (d : Delivery)
    → receive_message turns s ≡ (some d, (s', left))
    → (s'.message_received ≡ true) × (s'.context ≡ some d)
unfolding receive_message
receive_message-held [] left s s' d h = ground arith
receive_message-held (t ∷ ts) left s s' d h =
    ground (arith, receive_message-held ts left (process_data_events t s) s' d)

-- Until a reply is sent, `receive_message` returns the same message again, without asking the
-- broker for another.
pub receive_message-again :
    (turns left : List Turn) (s s' : Server) (d : Delivery)
    → receive_message turns s ≡ (some d, (s', left))
    → receive_message left s' ≡ (some d, (s', left))
unfolding receive_message
receive_message-again turns [] s s' d h = ground (arith, receive_message-held turns [] s s' d h)
receive_message-again turns (t ∷ ts) s s' d h =
    ground (arith, receive_message-held turns (t ∷ ts) s s' d h)

-- The replies of the server with the queue and the correlation id of each.
abbrev pub Origin : Type 0
Origin = Option String × String

abbrev pub origin : Delivery → Origin
origin d = (d.props.reply_to, d.props.correlation_id)

abbrev pub replies : List Published → List (Origin × Bytes)
replies [] = []
replies (p ∷ ps) = ((p.routing_key, p.properties.correlation_id), p.body) ∷ replies ps

replies-append : (ps qs : List Published) → replies (ps ++ qs) ≡ replies ps ++ replies qs
replies-append [] qs = refl
replies-append (p ∷ ps) qs = ground (arith, replies-append ps qs)

process_data_events-published :
    (t : Turn) (s : Server) → (process_data_events t s).published ≡ s.published
unfolding process_data_events on_receive
process_data_events-published [] s = refl
process_data_events-published (d ∷ ds) s = process_data_events-published ds (on_receive d s)

receive_message-published :
    (turns : List Turn) (s : Server) → (receive_message turns s).1.0.published ≡ s.published
unfolding receive_message
receive_message-published [] s = refl
receive_message-published (t ∷ ts) s = ground (
  arith,
  receive_message-published ts (process_data_events t s),
  process_data_events-published t s,
)

abbrev pub received : Waited → Option ((Delivery × Bytes) × (Server × List Turn))
received (none, _) = none
received (some d, s) = some ((d, d.body), s)

module _ (s s' : Server × List Turn) (x : Delivery × Bytes) where
  pub received-published :
      received (receive_message s.1 s.0) ≡ some (x, s')
      → replies s'.0.published ≡ replies s.0.published
  received-published h = ground (arith, receive_message-published s.1 s.0)

pub replies-send_reply :
    (d : Delivery) (reply : Bytes) (s : Server)
    → replies (send_reply d reply s).published ≡ replies s.published ++ ((origin d, reply) ∷ [])
unfolding send_reply reply_of
replies-send_reply d reply s = ground (arith, replies-append s.published (reply_of d reply s ∷ []))

-- The transport behind the interface of all transports. Its state has the turns to come.
abbrev pub server_transport : ServerTransport
server_transport = record {
  State = Server × List Turn;
  Context = Delivery;
  Origin = Origin;
  origin = origin;
  delivered = λ s. replies s.0.published;
  receive_message = λ s. received (receive_message s.1 s.0);
  send_reply = λ d reply s. (send_reply d reply s.0, s.1);
  delivered-receive_message = λ s s' x h. received-published s s' x h;
  delivered-send_reply = λ d reply s. replies-send_reply d reply s.0;
}
