-- ===== src/SocketClient/Requirements.antt =====
-- `Session.connect` of fluxrpc/transports/socket/client.py over the connection of its transport: what
-- a server requires of a client that has no key.
use aiotinyrpc.Base.{
  String, ◌≡◌, refl, sym, ap, ◌∙◌, subst, Bool, true, false, none, some, [], ◌∷◌, arith,
}
use aiotinyrpc.Python.Exc.{ok}
use aiotinyrpc.Messages.{Crypto, challenge}
use aiotinyrpc.Auth.{Bitcoin, Challenge}
use aiotinyrpc.SocketClient.{
  Transport, new_transport, state_of, done, disconnect, close_socket, reset_state,
  auth_address_required,
}
use aiotinyrpc.Python.Value.{Value}
use aiotinyrpc.SocketClient.Handlers.{Drawn, process_message, handle, handle_challenge, is_proxied}
use aiotinyrpc.SocketClient.Connect.{
  returned, processed, opened, Event, receives, resumes, run, step, resume, at, fail_with,
  for_challenge, Connection,
}
use aiotinyrpc.SocketClient.Connect as Connecting
use aiotinyrpc.SocketClient.Failures.{IsIdle}
use aiotinyrpc.SocketClient.Idle.{run-IsIdle}
use aiotinyrpc.SocketClient.Session.{concluded, Session, new_session, connect}

module _ (c : Crypto) (b : Bitcoin) where
  -- `connect` of the transport, when the socket opens and one message comes.
  abbrev pub attempt : Drawn → String → Transport → Transport
  attempt d text t =
      (run c b (receives d text ∷ resumes [] ∷ [])
        (Connecting.connect (opened ∷ []) false t)).transport

  module _ (target : String) (port : Value) (secure : Bool) where
    abbrev opening : Transport
    opening = record (new_transport none target port secure) {
      connecting = true;
      socket = true;
      channels = record {
        channels = record { id = 0; exclusive = false; in_use = false; q = [] } ∷ [];
        channel_count = 1;
      };
    }

    opened_lem :
        Connecting.connect (opened ∷ []) false (new_transport none target port secure)
        ≡ at (for_challenge 0) opening
    unfolding new_transport Connecting.connect
    opened_lem = refl

    challenged_lem :
        (d : Drawn) (text : String) (m : Challenge)
        → c.deserialize text ≡ ok (challenge m)
        → m.auth_required ≡ true
        → is_proxied m.source opening ≡ false
        → let t = state_of (process_message c b d text opening) in
          ((t.auth_address ≡ m.address)
            × (t.challenge_complete ≡ true)
            × (t.auth_required ≡ true)
            × (t.provider ≡ none)
            × (t.connected ≡ false)
            × (process_message c b d text opening ≡ done t))
    unfolding new_transport process_message handle handle_challenge
    challenged_lem d text m e r own = ground arith

  -- What `connect` makes of a challenge without a provider.
  abandoned_lem :
      (t : Transport)
      → t.challenge_complete ≡ true
      → t.auth_required ≡ true
      → t.provider ≡ none
      → t.connected ≡ false
      → let k = resume [] (for_challenge 0) t in
        ((k.transport.auth_address ≡ t.auth_address)
          × (k.transport.connected ≡ false)
          × (k.transport.failed_on ≡ some auth_address_required)
          × (k.phase ≡ returned none))
  unfolding resume fail_with disconnect close_socket reset_state
  abandoned_lem t e r p n = ground arith

  -- The steps of the transport's `connect`.
  run_lem :
      (target : String) (port : Value) (secure : Bool) (d : Drawn) (text : String)
      → let t = state_of (process_message c b d text (opening target port secure)) in
        (process_message c b d text (opening target port secure) ≡ done t)
        → run c b
            (receives d text ∷ resumes [] ∷ [])
            (Connecting.connect (opened ∷ []) false (new_transport none target port secure))
          ≡ resume [] (for_challenge 0) t
  unfolding run step new_transport
  run_lem target port secure d text e =
      ap (run c b (receives d text ∷ resumes [] ∷ [])) (opened_lem target port secure)
      ∙ ap (λ o. run c b (resumes [] ∷ []) (processed (for_challenge 0) o)) e

concluded_lem :
    (s : Session)
    → s.transport.connected ≡ false
    → s.transport.failed_on ≡ some auth_address_required
    → (concluded "" s).signing_address ≡ s.transport.auth_address
concluded_lem s n f = ground arith

concluded-transport : (s : Session) → (concluded "" s).transport ≡ s.transport
concluded-transport s = ground arith

fresh-IsIdle :
    (target : String) (port : Value) (secure : Bool)
    → IsIdle (new_transport none target port secure)
unfolding new_transport
fresh-IsIdle target port secure = record {
  no_channels = refl;
  no_socket = refl;
  not_connected = refl;
  not_connecting = refl;
  not_disconnecting = refl;
  not_encrypted = refl;
  not_authenticated = refl;
  auth_required = refl;
}

-- The session knows the address to sign with, and its transport can be connected again.
abbrev pub IsAsked : Challenge → Session → Type 0
IsAsked m s = (s.signing_address ≡ m.address) × IsIdle s.transport

concluded-IsAsked :
    (m : Challenge) (s : Session)
    → s.transport.connected ≡ false
    → s.transport.failed_on ≡ some auth_address_required
    → s.transport.auth_address ≡ m.address
    → IsIdle s.transport
    → IsAsked m (concluded "" s)
concluded-IsAsked m s n f a h =
    (concluded_lem s n f ∙ a, subst IsIdle (sym (concluded-transport s)) h)

-- A session over a fresh transport without a provider tries to connect, the socket opens, and the
-- server's own challenge comes: the session then knows the address whose key it has to sign with, and
-- its transport is idle again, for an attempt with that key.
pub connect-IsAsked :
    (c : Crypto) (b : Bitcoin) (target : String) (port : Value) (secure : Bool) (d : Drawn)
    (text : String) (m : Challenge)
    → c.deserialize text ≡ ok (challenge m)
    → m.auth_required ≡ true
    → is_proxied m.source (new_transport none target port secure) ≡ false
    → IsAsked m
        (connect (attempt c b d text) "" (new_session (new_transport none target port secure)))
unfolding connect new_transport is_proxied
connect-IsAsked c b target port secure d text m e r own =
    let t0 = new_transport none target port secure in
    let (a, x, y, z, w, o) = challenged_lem c b target port secure d text m e r own in
    let t = state_of (process_message c b d text (opening c b target port secure)) in
    let (fa, fc, ff, fp) = abandoned_lem c b t x y z w in
    let p = run_lem c b target port secure d text o in
    concluded-IsAsked m
      (record (new_session t0) { connection_attempted = true; transport = attempt c b d text t0 })
      (ap (λ k. k.transport.connected) p ∙ fc) (ap (λ k. k.transport.failed_on) p ∙ ff)
      (ap (λ k. k.transport.auth_address) p ∙ fa ∙ a)
      (run-IsIdle c b (opened ∷ []) (receives d text ∷ resumes [] ∷ []) t0
        (fresh-IsIdle target port secure) (refl, (refl, tt)) (ap (λ k. k.phase) p ∙ fp)).0
