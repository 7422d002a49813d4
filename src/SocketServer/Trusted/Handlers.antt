-- ===== src/SocketServer/Trusted/Handlers.antt =====
-- Authentication over the handlers of fluxrpc/transports/socket/server.py.
use aiotinyrpc.Base.{String, ◌≡◌, refl, Option, Bool-cases, inl, inr, arith, ◌∙◌, if_cases}
use aiotinyrpc.Python.Exc.{Result, ok, err}
use aiotinyrpc.Messages.{Message, challenge_reply, Crypto, decrypt_message}
use aiotinyrpc.Auth.{Bitcoin, Reply, verify_auth}
use aiotinyrpc.SocketServer.{State, state_of, stop_timer}
use aiotinyrpc.SocketServer.Handlers.{
  begin_encryption, handle_encryption_message, handle_liveliness_message, handle_auth_message,
  handle_forwarding_message,
}
use aiotinyrpc.SocketServer.Receive.{
  decrypted, Given, handle, process_message, readable, received, handle_pty_message,
  handle_file_stream_message,
}
use aiotinyrpc.SocketServer.Trusted.{
  IsReceived, read, opened, Gone, IsTrusted, same-Gone, keeps, IsTrusted-with_auth,
  address-verify_auth, challenges-verify_auth, none-verify_auth, replaced-Gone, proof_of,
}

module _ (c : Crypto) (b : Bitcoin) (R : String → Type 0) (D : String → String → Type 0)
    (a : Option String) where
  IsTrusted-handle_auth_message :
      (r : Reply) (s : State)
      → IsReceived c R (challenge_reply r)
      → IsTrusted c b R D a s
      → IsTrusted c b R D a (state_of (handle_auth_message b r s))
  unfolding handle_auth_message
  IsTrusted-handle_auth_message r s came h = elim (Bool-cases r.close_connection) [
    | inl e ↦ keeps c b R D a s _ (ground arith) (ground arith) h
    | inr e ↦
        let p = h.held.provider in
        rw (e, h.held.is_provider)
          (IsTrusted-with_auth c b R D a (stop_timer s) (verify_auth b p r).0 (verify_auth b p r).1
            (address-verify_auth c b R D a p r ∙ h.held.address)
            (λ i t k. h.held.challenges i t (challenges-verify_auth c b R D a p r i t k))
            (proof_of c b R D a p r s h.held.address h.held.challenges came)
            (λ i g. none-verify_auth c b R D a p r i (g p h.held.is_provider))
            (keeps c b R D a s (stop_timer s) refl refl h))
  ]

  IsTrusted-handle_encryption_message :
      (fill : String) (m : Message) (s : State)
      → IsTrusted c b R D a s
      → IsTrusted c b R D a (state_of (handle_encryption_message c fill m s))
  unfolding handle_encryption_message
  IsTrusted-handle_encryption_message fill m s h =
      keeps c b R D a s _ (ground arith) (ground arith) h

  IsTrusted-handle :
      (g : Given) (m : Message) (s : State)
      → IsReceived c R m
      → IsTrusted c b R D a s
      → IsTrusted c b R D a (state_of (handle c b g m s))
  unfolding handle begin_encryption handle_pty_message handle_file_stream_message
      handle_liveliness_message handle_forwarding_message
  IsTrusted-handle g (challenge_reply r) s came h = IsTrusted-handle_auth_message r s came h
  IsTrusted-handle g m s came h = keeps c b R D a s _ (ground arith) (ground arith) h

  readable-IsReceived :
      (s : State) (m : Message) → IsReceived c R m → IsReceived c R (readable c b s m)
  readable-IsReceived s m came =
      if_cases (IsReceived c R) s.peer.encrypted_flag
        (λ e. by_decrypted (decrypt_message c s.peer.key_data.aes m) refl) (λ e. came)
    where
      by_decrypted :
          (r : Result Message)
          → decrypt_message c s.peer.key_data.aes m ≡ r
          → IsReceived c R (decrypted c b m r)
      by_decrypted (ok m') e = opened s.peer.key_data.aes m m' came e
      by_decrypted (err x) e = came

  pub IsTrusted-process_message :
      (g : Given) (text : String) (s : State)
      → R text
      → IsTrusted c b R D a s
      → IsTrusted c b R D a (state_of (process_message c b g text s))
  unfolding process_message
  IsTrusted-process_message g text s q h = by_message (c.deserialize text) refl
    where
      by_message :
          (r : Result Message)
          → c.deserialize text ≡ r
          → IsTrusted c b R D a (state_of (received c b g r s))
      by_message (err e) k = h
      by_message (ok m) k =
          IsTrusted-handle g (readable c b s m) s (readable-IsReceived s m (read text m q k)) h

  handle_auth_message-Gone :
      (r : Reply) (s : State) (i : String)
      → IsTrusted c b R D a s
      → Gone i s
      → Gone i (state_of (handle_auth_message b r s))
  unfolding handle_auth_message
  handle_auth_message-Gone r s i h g = elim (Bool-cases r.close_connection) [
    | inl e ↦ same-Gone c b R D a s (state_of (handle_auth_message b r s)) (ground arith) i g
    | inr e ↦
        let p = h.held.provider in
        rw (e, h.held.is_provider)
          (replaced-Gone c b R D a (stop_timer s) (verify_auth b p r).0 (verify_auth b p r).1 i
            (none-verify_auth c b R D a p r i (g p h.held.is_provider)))
  ]

  handle-Gone :
      (g : Given) (m : Message) (s : State) (i : String)
      → IsTrusted c b R D a s
      → Gone i s
      → Gone i (state_of (handle c b g m s))
  unfolding handle begin_encryption handle_pty_message handle_file_stream_message
      handle_liveliness_message handle_forwarding_message handle_encryption_message
  handle-Gone g (challenge_reply r) s i h k = handle_auth_message-Gone r s i h k
  handle-Gone g m s i h k = same-Gone c b R D a s (state_of (handle c b g m s)) (ground arith) i k

  -- A challenge that is used up does not come back.
  pub process_message-Gone :
      (g : Given) (text : String) (s : State) (i : String)
      → IsTrusted c b R D a s
      → Gone i s
      → Gone i (state_of (process_message c b g text s))
  unfolding process_message
  process_message-Gone g text s i h k = by_message (c.deserialize text)
    where
      by_message : (r : Result Message) → Gone i (state_of (received c b g r s))
      by_message (err e) = k
      by_message (ok m) = handle-Gone g (readable c b s m) s i h k
