-- ===== src/SocketClient/Runs.antt =====
-- fluxrpc/transports/socket/client.py: `connected` through the steps of `connect` and the events of a
-- connection.
use aiotinyrpc.Base.{
  All, subst, ℕ, String, ◌≡◌, refl, sym, Bool, true, false, ◌||◌, Option, none, some, List, [], ◌∷◌,
  arith, if_cases, inl, inr, ap,
}
use aiotinyrpc.Auth.{Bitcoin}
use aiotinyrpc.Messages.{Crypto}
use aiotinyrpc.SocketClient.Handlers.{end_rekey}
use aiotinyrpc.Channels.{add_channel}
use aiotinyrpc.SocketClient.{
  Failure, Transport, disconnect, close_socket, reset_state, lose_connection, challenge_timeout,
  auth_timeout, forwarding_timeout, encryption_timeout, auth_denied, auth_address_required,
}
use aiotinyrpc.SocketClient.Secure.{
  IsTested, IsSecure, HasKeys, drop_key-HasKeys, claims, same_claims, weaker,
}
use aiotinyrpc.SocketClient.Secure.Handlers.{process_message-IsSecure}
use aiotinyrpc.SocketClient.Idle.{try_connect-cases}
use aiotinyrpc.SocketClient.Connect.{
  Attempt, Phase, for_turn, for_challenge, for_authentication, for_forwarding, for_encryption,
  returned, Connection, resume, time_out, fail_with, Event, receives, resumes, times_out,
  resumes_forwarder, loses_connection, ends_rekey, disconnects, step, run, resume_forwarder,
  opened_socket, wait_turn, try_connect, is_no_socket, has_channels, no_provider, is_failed,
  step_running,
}

module _ (c : Crypto) (P R : String → Type 0) where
  -- The part of a connection that the invariant is about.
  abbrev Keeps : Connection → Type 0
  Keeps k = IsSecure c P R k.transport

  disconnect-aes_keys :
      (t : Transport) (i : Option ℕ) (force : Bool) → (disconnect t i force).aes_keys ≡ t.aes_keys
  unfolding disconnect close_socket reset_state
  disconnect-aes_keys t i force = ground arith

  disconnect-claims :
      (t : Transport) (i : Option ℕ) (force : Bool)
      → claims (disconnect t i force) ≡ true
      → claims t ≡ true
  unfolding disconnect close_socket reset_state
  disconnect-claims t i force e = ground arith

  disconnect-IsSecure :
      (t : Transport) (i : Option ℕ) (force : Bool)
      → IsSecure c P R t
      → IsSecure c P R (disconnect t i force)
  disconnect-IsSecure t i force h =
      weaker c P R t (disconnect t i force) (disconnect-aes_keys t i force)
        (disconnect-claims t i force) h

  fail_with-IsSecure :
      (f : Failure) (t : Transport) → IsSecure c P R t → IsSecure c P R (fail_with f t).transport
  unfolding fail_with
  fail_with-IsSecure f t h = disconnect-IsSecure (record t { failed_on = some f }) none false h

  try_connect-aes_keys :
      (n : ℕ) (attempts : List Attempt) (t : Transport)
      → (try_connect n attempts t).aes_keys ≡ t.aes_keys
  try_connect-aes_keys n attempts t = elim (try_connect-cases n attempts t) [
    | inl e ↦ ap (λ x. x.aes_keys) e
    | inr e ↦ ap (λ x. x.aes_keys) e
  ]

  try_connect-claims :
      (n : ℕ) (attempts : List Attempt) (t : Transport)
      → claims (try_connect n attempts t) ≡ claims t
  try_connect-claims n attempts t = elim (try_connect-cases n attempts t) [
    | inl e ↦ ap claims e
    | inr e ↦ ap claims e
  ]

  opened_socket-IsSecure :
      (exclusive : Bool) (t : Transport)
      → IsSecure c P R t
      → IsSecure c P R (opened_socket exclusive t).transport
  unfolding add_channel
  opened_socket-IsSecure exclusive t h = if_cases Keeps t.socket (λ e. h) (λ e. h)

  wait_turn-IsSecure :
      (attempts : List Attempt) (exclusive : Bool) (t : Transport)
      → IsSecure c P R t
      → IsSecure c P R (wait_turn attempts exclusive t).transport
  unfolding add_channel
  wait_turn-IsSecure attempts exclusive t h =
      if_cases Keeps (t.connecting || t.disconnecting) (λ _. h)
        (λ _.
          if_cases Keeps (is_no_socket t.failed_on) (λ _. h)
            (λ _.
              if_cases Keeps (has_channels t) (λ _. h)
                (λ _.
                  opened_socket-IsSecure exclusive
                    (try_connect 3 attempts (record t { connecting = true })) tried)))
    where
      tried : IsSecure c P R (try_connect 3 attempts (record t { connecting = true }))
      tried =
          same_claims c P R t (try_connect 3 attempts (record t { connecting = true }))
            (try_connect-aes_keys 3 attempts (record t { connecting = true }))
            (try_connect-claims 3 attempts (record t { connecting = true })) h

  resume-IsSecure :
      (attempts : List Attempt) (ph : Phase) (t : Transport)
      → IsSecure c P R t
      → IsSecure c P R (resume attempts ph t).transport
  unfolding resume
  resume-IsSecure attempts (for_turn exclusive) t h = wait_turn-IsSecure attempts exclusive t h
  resume-IsSecure attempts (for_challenge i) t h =
      if_cases Keeps t.challenge_complete
        (λ e.
          if_cases Keeps t.auth_required
            (λ g.
              if_cases Keeps (no_provider t.provider)
                (λ n.
                  fail_with-IsSecure auth_address_required (record t { challenge_complete = false })
                    h)
                (λ n. h))
            (λ g. h))
        (λ e. h)
  resume-IsSecure attempts (for_authentication i) t h =
      if_cases Keeps t.authentication_event
        (λ e.
          if_cases Keeps t.authenticated (λ g. h)
            (λ g. fail_with-IsSecure auth_denied (record t { authentication_event = false }) h))
        (λ e. h)
  resume-IsSecure attempts (for_forwarding i) t h =
      if_cases Keeps t.forwarding_event
        (λ e.
          if_cases Keeps (is_failed t.failed_on)
            (λ g. disconnect-IsSecure (record t { forwarding_event = false }) none false h)
            (λ g. h))
        (λ e. h)
  resume-IsSecure attempts (for_encryption i) t h =
      if_cases Keeps t.encrypted_event (λ e. (h.0, λ _. h.1 (ground arith))) (λ e. h)
  resume-IsSecure attempts (returned o) t h = h

  time_out-IsSecure :
      (ph : Phase) (t : Transport) → IsSecure c P R t → IsSecure c P R (time_out ph t).transport
  unfolding time_out
  time_out-IsSecure (for_turn exclusive) t h = h
  time_out-IsSecure (for_challenge i) t h = fail_with-IsSecure challenge_timeout t h
  time_out-IsSecure (for_authentication i) t h = fail_with-IsSecure auth_timeout t h
  time_out-IsSecure (for_forwarding i) t h = fail_with-IsSecure forwarding_timeout t h
  time_out-IsSecure (for_encryption i) t h = fail_with-IsSecure encryption_timeout t h
  time_out-IsSecure (returned o) t h = h

  resume_forwarder-aes_keys : (t : Transport) → (resume_forwarder t).aes_keys ≡ t.aes_keys
  unfolding resume_forwarder
  resume_forwarder-aes_keys t = ground arith

  resume_forwarder-claims : (t : Transport) → claims (resume_forwarder t) ≡ claims t
  unfolding resume_forwarder
  resume_forwarder-claims t = ground arith

  -- The keys that an event draws and the text that it brings are of the two kinds.
  abbrev pub Fits : Event → Type 0
  Fits (receives d text) = P d.new_key × R text
  Fits e = Unit

  module _ (b : Bitcoin) where
    step_running-IsSecure :
        (e : Event) (k : Connection) → Fits e → Keeps k → Keeps (step_running c b e k)
    unfolding lose_connection end_rekey
    step_running-IsSecure (receives d text) k (p, q) h =
        if_cases Keeps k.transport.socket
          (λ s. process_message-IsSecure c P R b d text k.transport p q h) (λ s. h)
    step_running-IsSecure (resumes attempts) k u h = resume-IsSecure attempts k.phase k.transport h
    step_running-IsSecure times_out k u h = time_out-IsSecure k.phase k.transport h
    step_running-IsSecure resumes_forwarder k u h =
        same_claims c P R k.transport (resume_forwarder k.transport)
          (resume_forwarder-aes_keys k.transport) (resume_forwarder-claims k.transport) h
    step_running-IsSecure loses_connection k u h =
        weaker c P R k.transport (lose_connection k.transport) refl (λ e. ground arith) h
    step_running-IsSecure ends_rekey k u (ks, h) = (drop_key-HasKeys P k.transport.aes_keys ks, h)
    step_running-IsSecure (disconnects i force) k u h = disconnect-IsSecure k.transport i force h

    run-Keeps : (es : List Event) (k : Connection) → All Fits es → Keeps k → Keeps (run c b es k)
    unfolding run step
    run-Keeps [] k u h = h
    run-Keeps (e ∷ es) k (u, us) h =
        run-Keeps es (step c b e k) us
          (if_cases Keeps k.exited (λ x. h) (λ x. step_running-IsSecure e k u h))

started :
    (c : Crypto) (P R : String → Type 0) (t : Transport)
    → t.aes_keys ≡ []
    → claims t ≡ false
    → IsSecure c P R t
started c P R t e n = (subst (HasKeys P) (sym e) (tt, omega arith), λ y. cc (y, n))

-- Let `P` hold of the keys that a client draws and `R` of the texts that it receives. Whatever
-- happens to a client that starts without keys and not connected: once it is `connected`, one of
-- those texts, read in clear or after decrypting, was an encrypted message that decrypts under one
-- of its own keys to the other end's test message.
pub run-IsTested :
    (c : Crypto) (b : Bitcoin) (P R : String → Type 0) (es : List Event) (k : Connection)
    → k.transport.aes_keys ≡ []
    → claims k.transport ≡ false
    → All (Fits c P R) es
    → (run c b es k).transport.connected ≡ true
    → IsTested c P R
run-IsTested c b P R es k no_keys n u e =
    (run-Keeps c P R b es k u (started c P R k.transport no_keys n)).1 (ground (arith, e))

-- However often the other end asks for a new key, a client that starts without keys keeps two at
-- most, each one that it has drawn itself.
pub run-HasKeys :
    (c : Crypto) (b : Bitcoin) (P : String → Type 0) (es : List Event) (k : Connection)
    → k.transport.aes_keys ≡ []
    → claims k.transport ≡ false
    → All (Fits c P (λ x. Unit)) es
    → HasKeys P (run c b es k).transport.aes_keys
run-HasKeys c b P es k no_keys n u =
    (run-Keeps c P (λ x. Unit) b es k u (started c P (λ x. Unit) k.transport no_keys n)).0
