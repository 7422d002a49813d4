-- ===== src/Transports/RabbitMq/Client.antt =====
-- fluxrpc/transports/rabbitmq.py: `RabbitMQClientTransport`
use aiotinyrpc.Base.{
  ℕ, suc, String, str_eq, Bool, true, false, Option, none, some, List, [], ◌∷◌, ◌++◌, if◌then◌else◌,
}
use aiotinyrpc.Transports.Abstract.{Bytes}
use aiotinyrpc.Transports.RabbitMq.{Delivery, Published, Turn}

pub record Client : Type 0 where
  pub exchange : String
  pub routing_key : String
  pub callback_queue : String
  pub id_counter : ℕ
  pub corr_id : String
  pub response_data : Option Bytes
  pub published : List Published

-- `__init__`, where `corr_id` and `response_data` are not set yet.
unfoldable pub started : String → String → String → Client
started exchange routing_key queue = record {
  exchange = exchange;
  routing_key = routing_key;
  callback_queue = queue;
  id_counter = 1000;
  corr_id = "";
  response_data = none;
  published = [];
}

-- `_get_unique_id`
unfoldable pub get_unique_id : Client → ℕ × Client
get_unique_id c = (suc c.id_counter, record c { id_counter = suc c.id_counter })

-- `on_response`
unfoldable pub on_response : Delivery → Client → Client
on_response d c =
    if str_eq c.corr_id d.props.correlation_id then record c { response_data = some d.body } else c

-- `process_data_events` with its deliveries
unfoldable pub process_data_events : Turn → Client → Client
unfolding on_response
process_data_events [] c = c
process_data_events (d ∷ ds) c = process_data_events ds (on_response d c)

-- What `send_message` does in the end: it returns, or waits when the turns are over.
pub data Outcome : Type 0 where
  returned : Option Bytes → Outcome
  waits : Outcome

abbrev held : Option Bytes → Outcome
held none = waits
held (some reply) = returned (some reply)

abbrev is_none : Option Bytes → Bool
is_none none = true
is_none (some reply) = false

-- The loop of `send_message`
unfoldable pub await_response : List Turn → Client → Outcome × (Client × List Turn)
unfolding process_data_events
await_response [] c = (held c.response_data, (c, []))
await_response (t ∷ ts) c =
    let rest = await_response ts (process_data_events t c) in
    if is_none c.response_data then rest else (held c.response_data, (c, t ∷ ts))

module _ (str : ℕ → String) where
  -- What `send_message` publishes under a unique id.
  unfoldable pub request_of : Bytes → ℕ → Client → Published
  request_of message unique_id c = record {
    exchange = c.exchange;
    routing_key = some c.routing_key;
    properties = record { reply_to = some c.callback_queue; correlation_id = str unique_id };
    body = message;
  }

  -- What `send_message` has done when it comes to its loop.
  unfoldable pub publish : Bytes → Client → Client
  unfolding get_unique_id
  publish message c =
      let (unique_id, c') = get_unique_id c in
      record c' {
        response_data = none;
        corr_id = str unique_id;
        published = c.published ++ (request_of message unique_id c ∷ []);
      }

  -- `send_message`
  unfoldable pub send_message : Bytes → Bool → List Turn → Client → Outcome × (Client × List Turn)
  unfolding publish await_response
  send_message message expect_reply turns c =
      let c' = publish message c in
      if expect_reply then await_response turns c' else (returned none, (c', turns))
