-- ===== src/Transports/RabbitMq.antt =====
-- fluxrpc/transports/rabbitmq.py: the two transports over RabbitMQ. The broker and `pika` are given
-- by what `process_data_events` delivers, call by call: a list of deliveries, each of which runs
-- the consumer's callback once, in order. What the code publishes and acknowledges is recorded.
-- `_id_counter` is a native number, and `str` of it a parameter.
pub mod Server
pub mod Serving
pub mod Client
pub mod Replies
pub mod RoundTrip
use aiotinyrpc.Base.{ℕ, String, Option, List}
use aiotinyrpc.Transports.Abstract.{Bytes}

-- `BasicProperties`, and a delivery with the tag of its method
pub record Properties : Type 0 where
  pub reply_to : Option String
  pub correlation_id : String

pub record Delivery : Type 0 where
  pub delivery_tag : ℕ
  pub props : Properties
  pub body : Bytes

-- The arguments of `basic_publish`
pub record Published : Type 0 where
  pub exchange : String
  pub routing_key : Option String
  pub properties : Properties
  pub body : Bytes

-- What one call of `process_data_events` delivers.
abbrev pub Turn : Type 0
Turn = List Delivery
