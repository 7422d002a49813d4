-- ===== src/SocketClient/Idle.antt =====
-- fluxrpc/transports/socket/client.py: `connect` on a transport without a socket, and what its
-- failures leave.
use aiotinyrpc.Base.{
  ℕ, suc, ◌≡◌, refl, true, false, ◌||◌, none, some, List, [], ◌∷◌, arith, if_cases, All, ap, sym,
  subst, ◌∙◌, ◌⊎◌, inl, inr, zero,
}
use aiotinyrpc.Auth.{Bitcoin}
use aiotinyrpc.Messages.{Message, Crypto}
use aiotinyrpc.Channels.{Channel, add_channel, remove_channel, drop_first}
use aiotinyrpc.SocketClient.{closed_if_empty, Failure, no_socket, Transport, disconnect}
use aiotinyrpc.SocketClient.Connect.{
  is_no_socket, Attempt, returned, Connection, connect, fail_with, Event, run, at, is_failed,
  opened, fails, try_connect, take_turn, has_channels, has_items, opened_socket,
}
use aiotinyrpc.SocketClient.Failures.{IsAlone, IsIdle, Tracked, IsTracked}
use aiotinyrpc.SocketClient.Failures.Events.{undisturbed, run-IsTracked}
use mathlib.Core.Bool.{true≢false}

pub try_connect-cases :
    (n : ℕ) (attempts : List Attempt) (t : Transport)
    → (try_connect n attempts t ≡ t)
      ⊎ (try_connect n attempts t ≡ record t { socket = true; closing = false })
unfolding try_connect
try_connect-cases zero attempts t = inl refl
try_connect-cases (suc n) [] t = inl refl
try_connect-cases (suc n) (opened ∷ attempts) t = inr refl
try_connect-cases (suc n) (fails ∷ attempts) t = try_connect-cases n attempts t

-- The `connecting` that `connect` has set, and the attempts at a socket.
module _ (t : Transport) (h : IsIdle t) where
  forgotten-IsIdle : IsIdle (record t { failed_on = none })
  forgotten-IsIdle = record {
    no_channels = h.no_channels;
    no_socket = h.no_socket;
    not_connected = h.not_connected;
    not_connecting = h.not_connecting;
    not_disconnecting = h.not_disconnecting;
    not_encrypted = h.not_encrypted;
    not_authenticated = h.not_authenticated;
    auth_required = h.auth_required;
  }

  abandoned-IsIdle : IsIdle (record t { connecting = false; failed_on = some no_socket })
  abandoned-IsIdle = record {
    no_channels = h.no_channels;
    no_socket = h.no_socket;
    not_connected = h.not_connected;
    not_connecting = refl;
    not_disconnecting = h.not_disconnecting;
    not_encrypted = h.not_encrypted;
    not_authenticated = h.not_authenticated;
    auth_required = h.auth_required;
  }

  added-IsAlone : IsAlone (record t {
    connecting = true;
    socket = true;
    closing = false;
    channels = (add_channel t.channels false).1;
  })
  unfolding add_channel
  added-IsAlone = record {
    alone = (
      record { id = t.channels.channel_count; exclusive = false; in_use = false; q = [] },
      ground arith,
      refl,
      refl,
    );
  }

  opened_socket-IsTracked :
      (t' : Transport)
      → ((t' ≡ record t { connecting = true })
          ⊎ (t' ≡ record t { connecting = true; socket = true; closing = false }))
      → IsTracked (opened_socket false t')
  opened_socket-IsTracked t' (inl e) =
      subst (λ x. IsTracked (opened_socket false x)) (sym e)
        (if_cases IsTracked t.socket (λ s. cc (s, h.no_socket)) (λ s. (abandoned-IsIdle, refl)))
  opened_socket-IsTracked t' (inr e) =
      subst (λ x. IsTracked (opened_socket false x)) (sym e) added-IsAlone

  take_turn-IsTracked :
      (attempts : List Attempt) → t.failed_on ≡ none → IsTracked (take_turn attempts false t)
  take_turn-IsTracked attempts f =
      if_cases IsTracked (is_no_socket t.failed_on) (λ e. cc (e, ap is_no_socket f))
        (λ e.
          if_cases IsTracked (has_channels t)
            (λ g. absurd (true≢false (sym g ∙ ap has_items h.no_channels)))
            (λ g.
              opened_socket-IsTracked _
                (try_connect-cases 3 attempts (record t { connecting = true }))))

connect-IsTracked :
    (attempts : List Attempt) (t : Transport) → IsIdle t → IsTracked (connect attempts false t)
unfolding connect
connect-IsTracked attempts t h =
    if_cases IsTracked (t.connecting || t.disconnecting) (λ e. ground arith)
      (λ e.
        take_turn-IsTracked (record t { failed_on = none }) (forgotten-IsIdle t h) attempts refl)

-- A `connect` for a shared channel, on a transport that is idle, that returns nothing, whatever the
-- other end and the timers do: the transport is idle again, that is without socket and channel, not
-- connecting, disconnecting, connected, encrypted or authenticated, and `failed_on` is set. No other
-- task disconnects it meanwhile. The events may still be set.
pub run-IsIdle :
    (c : Crypto) (b : Bitcoin) (attempts : List Attempt) (es : List Event) (t : Transport)
    → IsIdle t
    → All (λ e. undisturbed e ≡ true) es
    → (run c b es (connect attempts false t)).phase ≡ returned none
    → (IsIdle (run c b es (connect attempts false t)).transport
        × (is_failed (run c b es (connect attempts false t)).transport.failed_on ≡ true))
run-IsIdle c b attempts es t h u e =
    subst (λ ph. Tracked ph (run c b es (connect attempts false t)).transport) e
      (run-IsTracked c b es (connect attempts false t) u (connect-IsTracked attempts t h))

-- The transport with one channel.
abbrev pub holding : Channel Message → Transport → Transport
holding c t = record t { channels = record t.channels { channels = c ∷ [] } }

kept_channel :
    (c : Channel Message) (t : Transport)
    → c.exclusive ≡ true
    → remove_channel (holding c t).channels none ≡ (holding c t).channels
unfolding remove_channel drop_first
kept_channel c t x = ground arith

fail_with-holding :
    (f : Failure) (c : Channel Message) (t : Transport)
    → c.exclusive ≡ true
    → fail_with f (holding c t)
      ≡ at (returned none) (record (holding c t) { failed_on = some f; connecting = false })
unfolding fail_with disconnect
fail_with-holding f c t x =
    ap
      (λ cs.
        at (returned none)
          (record (closed_if_empty (record t { failed_on = some f; channels = cs })) {
            connecting = false;
          }))
      (kept_channel c t x)

-- A channel at once, on the same socket, as little connected and encrypted as before.
abbrev pub Leaks : Transport → Connection → Type 0
Leaks t k =
    (k.phase ≡ returned (some t.channels.channel_count))
    × (k.transport.socket ≡ t.socket)
    × (k.transport.connected ≡ t.connected)
    × (k.transport.encrypted ≡ t.encrypted)

-- A `connect` for an exclusive channel that fails after the socket was opened leaves the channel and
-- the socket, and the next `connect` at once returns a channel, on a transport that is no more
-- connected or encrypted than it was at the failure.
pub fail_with-Leaks :
    (f : Failure) (attempts : List Attempt) (c : Channel Message) (t : Transport)
    → c.exclusive ≡ true
    → t.disconnecting ≡ false
    → Leaks t (connect attempts false (fail_with f (holding c t)).transport)
unfolding connect add_channel
fail_with-Leaks f attempts c t x u =
    subst (λ k. Leaks t (connect attempts false k.transport)) (sym (fail_with-holding f c t x))
      (if_cases (Leaks t) t.disconnecting (λ e. absurd (true≢false (sym e ∙ u)))
        (λ e. (refl, refl, refl, refl)))
