-- ===== src/Transports/RabbitMq/Serving.antt =====
-- fluxrpc/transports/rabbitmq.py: the loop of a server on `RabbitMQServerTransport`.
use aiotinyrpc.Base.{
  ℕ, zero, suc, ◌≡◌, refl, sym, ap, subst, ◌∙◌, String, true, false, Option, some, List, [], ◌∷◌,
  ◌++◌, length, ◌≤◌, arith, All,
}
use aiotinyrpc.Transports.Abstract.{Bytes, serve, serve-message}
use aiotinyrpc.Transports.RabbitMq.{Delivery, Turn}
use aiotinyrpc.Transports.RabbitMq.Server.{
  Server, on_receive, process_data_events, receive_message, send_reply, origin, server_transport,
  Origin, received,
}
use mathlib.Core.List.{append_assoc, append-nil}

-- What the turns deliver in all, and a turn of at most one delivery.
unfoldable pub deliveries : List Turn → List Delivery
deliveries [] = []
deliveries (t ∷ ts) = t ++ deliveries ts

abbrev pub IsSingle : Turn → Type 0
IsSingle t = length t ≤ 1

receive_message-holding :
    (turns : List Turn) (s : Server)
    → s.message_received ≡ true
    → receive_message turns s ≡ (s.context, (s, turns))
unfolding receive_message
receive_message-holding [] s h = ground arith
receive_message-holding (t ∷ ts) s h = ground arith

module _ (s : Server) (idle : s.message_received ≡ false) (ts : List Turn) where
  -- A turn without a delivery is passed over, and one with a delivery ends the wait.
  receive_message-empty : receive_message ([] ∷ ts) s ≡ receive_message ts s
  unfolding receive_message process_data_events
  receive_message-empty = ground arith

  receive_message-one :
      (d : Delivery) → receive_message ((d ∷ []) ∷ ts) s ≡ (some d, (on_receive d s, ts))
  unfolding receive_message process_data_events on_receive
  receive_message-one d = ground (arith, receive_message-holding ts (on_receive d s) refl)

abbrev pub tags : List Delivery → List ℕ
tags [] = []
tags (d ∷ ds) = d.delivery_tag ∷ tags ds

abbrev pub requests : List Delivery → List ((Option String × String) × Bytes)
requests [] = []
requests (d ∷ ds) = (origin d, d.body) ∷ requests ds

module _ (respond : Bytes → Bytes) where
  abbrev IsServed : Server → List Delivery → List (Origin × Bytes) × (Server × List Turn) → Type 0
  IsServed s ds r =
      (r.0 ≡ requests ds) × (r.1.0.acked ≡ s.acked ++ tags ds) × (r.1.0.message_received ≡ false)

  serve-empty :
      (n : ℕ) (s : Server) (ts : List Turn) (ds : List Delivery)
      → s.message_received ≡ false
      → IsServed s ds (serve server_transport respond n (s, ts))
      → IsServed s ds (serve server_transport respond n (s, [] ∷ ts))
  unfolding serve
  serve-empty zero s ts ds idle served = served
  serve-empty (suc n) s ts ds idle served = ground (arith, receive_message-empty s idle ts)

  -- A server that receives at most one delivery at a time answers all of them, once and in their
  -- order, and acknowledges each.
  pub serve-singles :
      (turns : List Turn) (s : Server)
      → s.message_received ≡ false
      → All IsSingle turns
      → let r = serve server_transport respond (length (deliveries turns)) (s, turns) in
        (r.0 ≡ requests (deliveries turns))
        × (r.1.0.acked ≡ s.acked ++ tags (deliveries turns))
        × (r.1.0.message_received ≡ false)
  unfolding deliveries serve send_reply on_receive
  serve-singles [] s idle single = (refl, sym (append-nil s.acked), idle)
  serve-singles ([] ∷ ts) s idle (h, single) =
      serve-empty (length (deliveries ts)) s ts (deliveries ts) idle
        (serve-singles ts s idle single)
  serve-singles ((d ∷ []) ∷ ts) s idle (h, single) =
      let after = send_reply d (respond d.body) (on_receive d s) in
      let (hr, ha, hm) = serve-singles ts after refl single in
      let e =
        serve-message server_transport respond (length (deliveries ts)) (s, (d ∷ []) ∷ ts)
          (on_receive d s, ts) d d.body (ap received (receive_message-one s idle ts d)) in
      subst (IsServed s (d ∷ deliveries ts)) (sym e) (
        ap (λ rs. (origin d, d.body) ∷ rs) hr,
        ha ∙ append_assoc s.acked (d.delivery_tag ∷ []) (tags (deliveries ts)),
        hm,
      )
  serve-singles ((d ∷ e ∷ ds) ∷ ts) s idle (h, single) = absurd (omega (arith, h))

process_data_events-last :
    (ds : List Delivery) (d : Delivery) (s : Server)
    → process_data_events (ds ++ (d ∷ [])) s ≡ on_receive d s
unfolding process_data_events on_receive
process_data_events-last [] d s = refl
process_data_events-last (e ∷ ds) d s = process_data_events-last ds d (on_receive e s)

-- The message of a delivery takes the place of those that came before it in the same turn, which
-- are neither returned nor acknowledged.
pub receive_message-last :
    (ds : List Delivery) (d : Delivery) (s : Server) (ts : List Turn)
    → s.message_received ≡ false
    → receive_message ((ds ++ (d ∷ [])) ∷ ts) s ≡ (some d, (on_receive d s, ts))
unfolding receive_message on_receive
receive_message-last ds d s ts idle =
    ground
      (arith, process_data_events-last ds d s, receive_message-holding ts (on_receive d s) refl)
