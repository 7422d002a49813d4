-- ===== src/Transports/RabbitMq/Replies.antt =====
-- fluxrpc/transports/rabbitmq.py: which reply `RabbitMQClientTransport.send_message` returns.
use aiotinyrpc.Base.{
  ℕ, suc, ◌≡◌, refl, String, str_eq, true, Option, none, some, List, [], ◌∷◌, arith, if◌then◌else◌,
  Option-cases, inl, inr,
}
use aiotinyrpc.Transports.Abstract.{Bytes}
use aiotinyrpc.Transports.RabbitMq.{Turn}
use aiotinyrpc.Transports.RabbitMq.Client.{
  Client, get_unique_id, on_response, process_data_events, Outcome, returned, waits, await_response,
  publish, send_message,
}

-- The last delivery of a turn that answers a request, and the first turn with one.
unfoldable pub last_reply : String → Turn → Option Bytes
last_reply k [] = none
last_reply k (d ∷ ds) =
    let rest = last_reply k ds in
    elim rest [
      | some reply ↦ some reply
      | none ↦ if str_eq k d.props.correlation_id then some d.body else none
    ]

unfoldable pub first_reply : String → List Turn → Outcome
first_reply k [] = waits
first_reply k (t ∷ ts) = elim (last_reply k t) [
  | some reply ↦ returned (some reply)
  | none ↦ first_reply k ts
]

abbrev or_held : Option Bytes → Option Bytes → Option Bytes
or_held none o = o
or_held (some reply) o = some reply

process_data_events-last_reply :
    (t : Turn) (c : Client)
    → process_data_events t c
      ≡ record c { response_data = or_held (last_reply c.corr_id t) c.response_data }
unfolding process_data_events on_response last_reply
process_data_events-last_reply [] c = refl
process_data_events-last_reply (d ∷ ds) c =
    ground (arith, process_data_events-last_reply ds (on_response d c))

await_response-holding :
    (ts : List Turn) (c : Client) (reply : Bytes)
    → c.response_data ≡ some reply
    → (await_response ts c).0 ≡ returned (some reply)
unfolding await_response
await_response-holding [] c reply h = ground arith
await_response-holding (t ∷ ts) c reply h = ground arith

await_response-first_reply :
    (ts : List Turn) (c : Client)
    → c.response_data ≡ none
    → (await_response ts c).0 ≡ first_reply c.corr_id ts
unfolding await_response first_reply
await_response-first_reply [] c h = ground arith
await_response-first_reply (t ∷ ts) c h = elim (Option-cases (last_reply c.corr_id t)) [
  | inl e ↦ ground (
    arith,
    process_data_events-last_reply t c,
    await_response-first_reply ts (process_data_events t c),
  )
  | inr (reply, e) ↦ ground (
    arith,
    process_data_events-last_reply t c,
    await_response-holding ts (process_data_events t c) reply,
  )
]

module _ (str : ℕ → String) where
  -- A request that expects a reply gets the last one with its own correlation id in the first turn
  -- that has one, whatever the replies to other requests; until there is one it waits.
  pub send_message-first_reply :
      (message : Bytes) (turns : List Turn) (c : Client)
      → (send_message str message true turns c).0 ≡ first_reply (str (suc c.id_counter)) turns
  unfolding send_message publish get_unique_id
  send_message-first_reply message turns c =
      await_response-first_reply turns (publish str message c) refl
