-- ===== src/SocketClient/Failures.antt =====
-- What a failed `connect` of fluxrpc/transports/socket/client.py leaves behind.
pub mod Events
use aiotinyrpc.Base.{
  ℕ, String, ◌≡◌, refl, Bool, true, false, none, some, List, [], ◌∷◌, ◌++◌, ◌==◌, if◌then◌else◌,
  arith, if_cases, All,
}
use aiotinyrpc.Python.Exc.{Result, ok, err}
use aiotinyrpc.Auth.{Bitcoin}
use aiotinyrpc.Messages.{Message, Crypto}
use aiotinyrpc.Channels.{Channel, remove_channel, drop_first, deliver, update}
use aiotinyrpc.SocketClient.{
  Failure, auth_address_required, auth_denied, challenge_timeout, auth_timeout, forwarding_timeout,
  encryption_timeout, Transport, state_of, disconnect, close_socket, reset_state, lose_connection,
}
use aiotinyrpc.SocketClient.Handlers.{
  Drawn, process_message, handle, decrypt, handle_challenge, handle_auth_reply, handle_forwarding,
  handle_public_key, handle_test, end_rekey, Decrypted, message, failed, ends, after_decrypt,
  received,
}
use aiotinyrpc.SocketClient.Connect.{
  Attempt, Phase, for_turn, for_challenge, for_authentication, for_forwarding, for_encryption,
  returned, Connection, resume, time_out, fail_with, Event, receives, resumes, times_out,
  resumes_forwarder, loses_connection, ends_rekey, disconnects, step, run, resume_forwarder,
  give_up, is_failed, no_provider, past_challenge, past_authentication, past_forwarding, processed,
  step_running,
}

-- The only channel is free, and not an exclusive one.
pub record IsAlone (t : Transport) : Type 0 where
  pub alone :
      (c : Channel Message) × (t.channels.channels ≡ c ∷ [])
      × (c.exclusive ≡ false)
      × (c.in_use ≡ false)

-- No socket, no channel, no connect or disconnect under way, neither encrypted nor authenticated, and
-- a challenge to be answered. The events, the forwarders and what is known of a proxy are left open:
-- `disconnect` clears none of the events.
pub record IsIdle (t : Transport) : Type 0 where
  pub no_channels : t.channels.channels ≡ []
  pub no_socket : t.socket ≡ false
  pub not_connected : t.connected ≡ false
  pub not_connecting : t.connecting ≡ false
  pub not_disconnecting : t.disconnecting ≡ false
  pub not_encrypted : t.encrypted ≡ false
  pub not_authenticated : t.authenticated ≡ false
  pub auth_required : t.auth_required ≡ true

-- What holds of a connection at each wait of its `connect`, and when that has returned nothing.
abbrev pub Tracked : Phase → Transport → Type 0
Tracked (for_turn exclusive) t = ⊥
Tracked (for_challenge i) t = IsAlone t
Tracked (for_authentication i) t = IsAlone t
Tracked (for_forwarding i) t = IsAlone t
Tracked (for_encryption i) t = IsAlone t
Tracked (returned none) t = IsIdle t × (is_failed t.failed_on ≡ true)
Tracked (returned (some i)) t = Unit

abbrev pub IsTracked : Connection → Type 0
IsTracked k = Tracked k.phase k.transport

pub fail_with-IsTracked : (f : Failure) (t : Transport) → IsAlone t → IsTracked (fail_with f t)
unfolding fail_with disconnect close_socket reset_state remove_channel drop_first
fail_with-IsTracked f t h = let (c, e, x, u) = h.alone in (ground arith, ground arith)

give_up-IsTracked :
    (t : Transport) → IsAlone t → is_failed t.failed_on ≡ true → IsTracked (give_up t)
unfolding disconnect close_socket reset_state remove_channel drop_first
give_up-IsTracked t h f = let (c, e, x, u) = h.alone in (ground arith, ground arith)

pub same_channels : (t t' : Transport) → t'.channels ≡ t.channels → IsAlone t → IsAlone t'
same_channels t t' e h = let (c, one, x, u) = h.alone in record { alone = (c, ground arith, x, u) }

past_challenge-IsTracked : (i : ℕ) (t : Transport) → IsAlone t → IsTracked (past_challenge i t)
past_challenge-IsTracked i t h =
    if_cases IsTracked t.auth_required
      (λ e.
        if_cases IsTracked (no_provider t.provider)
          (λ f. fail_with-IsTracked auth_address_required t h) (λ f. h))
      (λ e. same_channels t _ refl h)

past_authentication-IsTracked :
    (i : ℕ) (t : Transport) → IsAlone t → IsTracked (past_authentication i t)
past_authentication-IsTracked i t h =
    if_cases IsTracked t.authenticated (λ e. same_channels t _ refl h)
      (λ e. fail_with-IsTracked auth_denied t h)

past_forwarding-IsTracked : (i : ℕ) (t : Transport) → IsAlone t → IsTracked (past_forwarding i t)
past_forwarding-IsTracked i t h =
    if_cases IsTracked (is_failed t.failed_on) (λ f. give_up-IsTracked t h f) (λ f. h)

pub resume-IsTracked :
    (attempts : List Attempt) (ph : Phase) (t : Transport)
    → Tracked ph t
    → IsTracked (resume attempts ph t)
unfolding resume
resume-IsTracked attempts (for_turn exclusive) t h = absurd h
resume-IsTracked attempts (for_challenge i) t h =
    if_cases IsTracked t.challenge_complete
      (λ e.
        past_challenge-IsTracked i (record t { challenge_complete = false })
          (same_channels t _ refl h))
      (λ e. h)
resume-IsTracked attempts (for_authentication i) t h =
    if_cases IsTracked t.authentication_event
      (λ e.
        past_authentication-IsTracked i (record t { authentication_event = false })
          (same_channels t _ refl h))
      (λ e. h)
resume-IsTracked attempts (for_forwarding i) t h =
    if_cases IsTracked t.forwarding_event
      (λ e.
        past_forwarding-IsTracked i (record t { forwarding_event = false })
          (same_channels t _ refl h))
      (λ e. h)
resume-IsTracked attempts (for_encryption i) t h =
    if_cases IsTracked t.encrypted_event (λ e. tt) (λ e. h)
resume-IsTracked attempts (returned none) t h = h
resume-IsTracked attempts (returned (some i)) t h = tt

pub time_out-IsTracked : (ph : Phase) (t : Transport) → Tracked ph t → IsTracked (time_out ph t)
unfolding time_out
time_out-IsTracked (for_turn exclusive) t h = absurd h
time_out-IsTracked (for_challenge i) t h = fail_with-IsTracked challenge_timeout t h
time_out-IsTracked (for_authentication i) t h = fail_with-IsTracked auth_timeout t h
time_out-IsTracked (for_forwarding i) t h = fail_with-IsTracked forwarding_timeout t h
time_out-IsTracked (for_encryption i) t h = fail_with-IsTracked encryption_timeout t h
time_out-IsTracked (returned none) t h = h
time_out-IsTracked (returned (some i)) t h = tt
