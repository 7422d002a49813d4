-- ===== src/SocketClient/Failures/Events.antt =====
-- The events of a connection of fluxrpc/transports/socket/client.py, and what each leaves of it.
use aiotinyrpc.Base.{
  ℕ, String, ◌≡◌, refl, Bool, true, false, none, some, List, [], ◌∷◌, ◌++◌, ◌==◌, if◌then◌else◌,
  arith, if_cases, All,
}
use aiotinyrpc.Python.Exc.{Result, ok, err}
use aiotinyrpc.Auth.{Bitcoin}
use aiotinyrpc.Messages.{Message, Crypto}
use aiotinyrpc.Channels.{deliver, update}
use aiotinyrpc.SocketClient.{Transport, state_of, lose_connection}
use aiotinyrpc.SocketClient.Handlers.{
  Drawn, process_message, handle, decrypt, handle_challenge, handle_auth_reply, handle_forwarding,
  handle_public_key, handle_test, end_rekey, Decrypted, message, failed, ends, after_decrypt,
  received,
}
use aiotinyrpc.SocketClient.Connect.{
  Phase, for_turn, for_challenge, for_authentication, for_forwarding, for_encryption, returned,
  Connection, Event, receives, resumes, times_out, resumes_forwarder, loses_connection, ends_rekey,
  disconnects, step, run, resume_forwarder, processed, step_running,
}
use aiotinyrpc.SocketClient.Failures.{
  IsAlone, IsIdle, Tracked, IsTracked, same_channels, resume-IsTracked, time_out-IsTracked,
}

deliver-IsAlone :
    (t : Transport) (i : ℕ) (m : Message)
    → IsAlone t
    → IsAlone (record t { channels = deliver t.channels i m })
unfolding deliver update
deliver-IsAlone t i m h =
    let (c, e, x, u) = h.alone in
    record {
      alone = (
        if c.id == i then record c { q = c.q ++ m ∷ [] } else c,
        ground arith,
        ground arith,
        ground arith,
      );
    }

handle-IsAlone :
    (c : Crypto) (b : Bitcoin) (d : Drawn) (m : Message) (t : Transport)
    → IsAlone t
    → IsAlone (state_of (handle c b d m t))
unfolding handle handle_challenge handle_auth_reply handle_forwarding handle_public_key handle_test
handle-IsAlone c b d (Message.rpc_reply i payload) t h = deliver-IsAlone t i _ h
handle-IsAlone c b d (Message.liveliness none text) t h = h
handle-IsAlone c b d (Message.liveliness (some i) text) t h = deliver-IsAlone t i _ h
handle-IsAlone c b d m t h = same_channels t _ (ground arith) h

process_message-IsAlone :
    (c : Crypto) (b : Bitcoin) (d : Drawn) (text : String) (t : Transport)
    → IsAlone t
    → IsAlone (state_of (process_message c b d text t))
unfolding process_message
process_message-IsAlone c b d text t h = received-IsAlone (c.deserialize text)
  where
    decrypted-IsAlone :
        (r : Decrypted) → IsAlone (state_of (after_decrypt c (λ m'. handle c b d m' t) t r))
    decrypted-IsAlone (message m) = handle-IsAlone c b d m t h
    decrypted-IsAlone (failed e) = h
    decrypted-IsAlone ends = h

    received-IsAlone : (r : Result Message) → IsAlone (state_of (received c b d r t))
    received-IsAlone (err e) = h
    received-IsAlone (ok m) =
        if_cases (λ o. IsAlone (state_of o)) t.encrypted (λ e. decrypted-IsAlone (decrypt c m t))
          (λ e. handle-IsAlone c b d m t h)

-- A transport without a socket reads nothing.
processed-IsTracked :
    (c : Crypto) (b : Bitcoin) (d : Drawn) (text : String) (ph : Phase) (t : Transport)
    → t.socket ≡ true
    → Tracked ph t
    → IsTracked (processed ph (process_message c b d text t))
processed-IsTracked c b d text (for_turn exclusive) t s h = absurd h
processed-IsTracked c b d text (for_challenge i) t s h = process_message-IsAlone c b d text t h
processed-IsTracked c b d text (for_authentication i) t s h = process_message-IsAlone c b d text t h
processed-IsTracked c b d text (for_forwarding i) t s h = process_message-IsAlone c b d text t h
processed-IsTracked c b d text (for_encryption i) t s h = process_message-IsAlone c b d text t h
processed-IsTracked c b d text (returned none) t s (h, f) = cc (s, h.no_socket)
processed-IsTracked c b d text (returned (some i)) t s h = tt

-- What the other events leave of the invariant's fields.
kept :
    (ph : Phase) (t t' : Transport)
    → t'.channels ≡ t.channels
    → (IsIdle t → IsIdle t')
    → t'.failed_on ≡ t.failed_on
    → Tracked ph t
    → Tracked ph t'
kept (for_turn exclusive) t t' e i f h = absurd h
kept (for_challenge n) t t' e i f h = same_channels t t' e h
kept (for_authentication n) t t' e i f h = same_channels t t' e h
kept (for_forwarding n) t t' e i f h = same_channels t t' e h
kept (for_encryption n) t t' e i f h = same_channels t t' e h
kept (returned none) t t' e i f (h, g) = (i h, ground arith)
kept (returned (some n)) t t' e i f h = tt

resume_forwarder-IsTracked :
    (ph : Phase) (t : Transport) → Tracked ph t → Tracked ph (resume_forwarder t)
unfolding resume_forwarder
resume_forwarder-IsTracked ph t h = kept ph t _ (ground arith) (λ i. ground arith) (ground arith) h

-- The events of a connection that no other task disconnects.
abbrev pub undisturbed : Event → Bool
undisturbed (disconnects i force) = false
undisturbed e = true

step_running-IsTracked :
    (c : Crypto) (b : Bitcoin) (e : Event) (k : Connection)
    → undisturbed e ≡ true
    → IsTracked k
    → IsTracked (step_running c b e k)
unfolding lose_connection end_rekey
step_running-IsTracked c b (receives d text) k u h =
    if_cases IsTracked k.transport.socket
      (λ s. processed-IsTracked c b d text k.phase k.transport s h) (λ s. h)
step_running-IsTracked c b (resumes attempts) k u h =
    resume-IsTracked attempts k.phase k.transport h
step_running-IsTracked c b times_out k u h = time_out-IsTracked k.phase k.transport h
step_running-IsTracked c b resumes_forwarder k u h =
    resume_forwarder-IsTracked k.phase k.transport h
step_running-IsTracked c b loses_connection k u h =
    kept k.phase k.transport _ refl (λ i. ground arith) refl h
step_running-IsTracked c b ends_rekey k u h =
    kept k.phase k.transport _ refl (λ i. ground arith) refl h
step_running-IsTracked c b (disconnects i force) k u h = cc u

pub run-IsTracked :
    (c : Crypto) (b : Bitcoin) (es : List Event) (k : Connection)
    → All (λ e. undisturbed e ≡ true) es
    → IsTracked k
    → IsTracked (run c b es k)
unfolding run step
run-IsTracked c b [] k u h = h
run-IsTracked c b (e ∷ es) k (u, us) h =
    run-IsTracked c b es (step c b e k) us
      (if_cases IsTracked k.exited (λ x. h) (λ x. step_running-IsTracked c b e k u h))
