-- ===== src/SocketClient/Session.antt =====
-- fluxrpc/transports/socket/client.py, `Session`, with its transport.
use aiotinyrpc.Base.{
  String, str_eq, Bool, true, false, not, ◌&&◌, Option, none, some, [], if◌then◌else◌,
}
use aiotinyrpc.Auth.{Provider}
use aiotinyrpc.SocketClient.{
  Failure, auth_address_required, auth_denied, proxy_auth_address_required, proxy_auth_denied,
  Transport, disconnect,
}
use aiotinyrpc.SocketClient.Connect.{no_provider, is_no_socket}

pub record Session : Type 0 where
  pub transport : Transport
  pub connected : Bool
  pub connection_attempted : Bool
  pub started : Bool
  pub signing_address : String

abbrev pub new_session : Transport → Session
new_session t = record {
  transport = t;
  connected = false;
  connection_attempted = false;
  started = false;
  signing_address = "";
}

-- The attribute that `address_type` names, where it names one.
abbrev required_address : Transport → Option Failure → Option String
required_address t (some auth_address_required) = some t.auth_address
required_address t (some auth_denied) = some t.auth_address
required_address t (some proxy_auth_address_required) = some t.proxy_auth_address
required_address t (some proxy_auth_denied) = some t.proxy_auth_address
required_address t f = none

abbrev with_address : Option String → Session → Session
with_address none s = s
with_address (some a) s = record s { signing_address = a }

abbrev key_provider : String → Provider
key_provider key = record { key = some key; address = none; challenges = [] }

-- `not self.transport.auth_provider and signing_key`
abbrev pub with_provider : String → Transport → Transport
with_provider key t =
    if no_provider t.provider && not (str_eq key "")
    then record t { provider = some (key_provider key) }
    else t

-- `connect`, once the transport's `connect` has returned and left that as it is given.
abbrev pub concluded : String → Session → Session
concluded key s =
    if not s.transport.connected && not (str_eq key "")
    then s
    else if s.transport.connected
    then record s { connected = true }
    else if is_no_socket s.transport.failed_on
    then s
    else with_address (required_address s.transport s.transport.failed_on) s

module _ (connect_transport : Transport → Transport) where
  unfoldable pub connect : String → Session → Session
  connect key s = concluded key (record s {
    connection_attempted = true;
    transport = connect_transport (with_provider key s.transport);
  })

  -- `start`
  unfoldable pub start : Bool → Session → Session
  unfolding connect
  start connects s = let s' = record s { started = true } in if connects then connect "" s' else s'

-- `reset`
unfoldable pub reset : Session → Session
reset s = record s {
  connected = false;
  connection_attempted = false;
  started = false;
  signing_address = "";
}

-- `end`
unfoldable pub end_session : Session → Session
unfolding reset disconnect
end_session s =
    reset (if s.connected then record s { transport = disconnect s.transport none false } else s)
