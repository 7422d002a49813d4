-- ===== src/SocketClient/Secure/Handlers.antt =====
-- fluxrpc/transports/socket/client.py: the handlers of messages, of which none claims a connection
-- without the test message.
use aiotinyrpc.Base.{
  String, str_eq, str_eq_iff, ◌≡◌, refl, Bool, true, false, Option, none, some, arith, if_cases,
  ◌∙◌, ap, All,
}
use aiotinyrpc.Python.Exc.{Exc, Result, ok, err}
use aiotinyrpc.Base.Text.{reverse}
use aiotinyrpc.Auth.{Bitcoin}
use aiotinyrpc.Messages.{Message, encrypted, test, Crypto, decrypt_message, sealed}
use aiotinyrpc.SocketClient.{Transport, state_of}
use aiotinyrpc.SocketClient.Handlers.{
  or_empty, Drawn, process_message, handle, decrypt, handle_challenge, handle_auth_reply,
  handle_forwarding, handle_public_key, handle_test, Decrypted, message, failed, ends,
  after_decrypt, received, first_key, last_key, with_new_key, wrong_key, decrypt_with, tested,
  responded, with_session_key, session_key_message, is_value_error, rekeyed, or_failed,
  send_or_raise,
}
use aiotinyrpc.SocketClient.Secure.{
  IsReceived, read, opened_by, IsTested, HasKeys, IsSecure, append_key-HasKeys, last_key-own,
  first_key-own, closed-IsSecure, same_claims,
}

module _ (c : Crypto) (P R : String → Type 0) where
  -- A message that came out of `decrypt` came out under some key.
  abbrev Opened : Message → Decrypted → Type 0
  Opened m (message m') = (k : String) × P k × (decrypt_message c k m ≡ ok m')
  Opened m (failed e) = Unit
  Opened m ends = Unit

  decrypt-Opened : (m : Message) (t : Transport) → All P t.aes_keys → Opened m (decrypt c m t)
  unfolding decrypt
  decrypt-Opened m t h = by_last (last_key t.aes_keys) refl
    where
      by_result :
          (k : String) (r : Result Message)
          → P k
          → decrypt_message c k m ≡ r
          → Opened m (or_failed c r)
      by_result k (ok m') p e = (k, p, e)
      by_result k (err x) p e = tt

      by_old :
          (old : String) (x : Exc) (rekeying : Option Bool)
          → P old
          → Opened m (wrong_key c m x old rekeying)
      by_old old x none p = tt
      by_old old x (some true) p = by_result old (decrypt_message c old m) p refl
      by_old old x (some false) p = tt

      by_new :
          (k old : String) (r : Result Message)
          → P k
          → P old
          → decrypt_message c k m ≡ r
          → Opened m (with_new_key c m old t.rekeying r)
      by_new k old (ok m') p q e = (k, p, e)
      by_new k old (err x) p q e =
          if_cases (Opened m) (is_value_error x) (λ g. by_old old x t.rekeying q) (λ g. tt)

      by_last : (k : Option String) → last_key t.aes_keys ≡ k → Opened m (decrypt_with c m t k)
      by_last none e = tt
      by_last (some k) e =
          let p = last_key-own P t.aes_keys k h e in
          by_new k (first_key t.aes_keys k) (decrypt_message c k m) p
            (first_key-own P t.aes_keys k h p) refl

  responded-IsSecure :
      (t : Transport) (r : Result String)
      → HasKeys P t.aes_keys
      → IsTested c P R
      → IsSecure c P R (state_of (responded c (record t { encrypted = true }) r))
  responded-IsSecure t (ok x) h y = (h, λ _. y)
  responded-IsSecure t (err x) h y = (h, λ _. y)

  tested-IsSecure :
      (k text : String) (t : Transport) (m : Message)
      → P k
      → IsReceived c R (encrypted text)
      → decrypt_message c k (encrypted text) ≡ ok m
      → IsSecure c P R t
      → IsSecure c P R (state_of (tested c t m))
  tested-IsSecure k text t (test fill q) p o e h =
      if_cases (λ o. IsSecure c P R (state_of o)) (str_eq q "TestEncryptionMessage")
        (λ g.
          responded-IsSecure t
            (c.encrypt (or_empty c (last_key t.aes_keys))
              (test (reverse fill) "TestEncryptionMessageResponse"))
            h.0
            (record {
              key = k;
              text = text;
              fill = fill;
              own_key = p;
              was_read = o;
              is_test = e ∙ ap (λ x. ok (test fill x)) ((str_eq_iff q "TestEncryptionMessage").0 g);
            }))
        (λ g. closed-IsSecure c P R t h)
  tested-IsSecure k text t (Message.liveliness i q) p o e h =
      if_cases (λ o. IsSecure c P R (state_of o)) (str_eq q "TestEncryptionMessage") (λ g. h)
        (λ g. closed-IsSecure c P R t h)
  tested-IsSecure k text t m p o e h = h

  handle_test-IsSecure :
      (text : String) (t : Transport)
      → IsReceived c R (encrypted text)
      → IsSecure c P R t
      → IsSecure c P R (state_of (handle_test c text t))
  unfolding handle_test
  handle_test-IsSecure text t o h =
      by_decrypted (decrypt c (encrypted text) t) (decrypt-Opened (encrypted text) t h.0.0)
    where
      by_decrypted :
          (r : Decrypted)
          → Opened (encrypted text) r
          → IsSecure c P R (state_of (after_decrypt c (tested c t) t r))
      by_decrypted (message m) (k, p, e) = tested-IsSecure k text t m p o e h
      by_decrypted (failed x) e = h
      by_decrypted ends e = h

  rekeyed-IsSecure :
      (key : String) (t : Transport) → P key → IsSecure c P R t → IsSecure c P R (rekeyed c key t)
  rekeyed-IsSecure key t p (ks, h) =
      if_cases (IsSecure c P R) t.encrypted (λ e. (append_key-HasKeys P t.aes_keys key ks p, h))
        (λ e. (append_key-HasKeys P t.aes_keys key ks p, h))

  handle_public_key-IsSecure :
      (key_pem key drawn : String) (t : Transport)
      → P key
      → IsSecure c P R t
      → IsSecure c P R (state_of (handle_public_key c key_pem key drawn t))
  unfolding handle_public_key
  handle_public_key-IsSecure key_pem key drawn t p h =
      by_session_key (rekeyed c key t) (rekeyed-IsSecure key t p h)
        (session_key_message c key_pem key drawn)
    where
      by_sealed :
          (t' : Transport)
          → IsSecure c P R t'
          → (r : Result Message) → IsSecure c P R (state_of (send_or_raise c t' r))
      by_sealed t' h' (ok m) = h'
      by_sealed t' h' (err e) = h'

      by_session_key :
          (t' : Transport)
          → IsSecure c P R t'
          → (r : Result Message) → IsSecure c P R (state_of (with_session_key c t' r))
      by_session_key t' h' (err e) =
          if_cases (λ o. IsSecure c P R (state_of o)) (is_value_error e)
            (λ g. closed-IsSecure c P R t' h') (λ g. h')
      by_session_key t' h' (ok m) =
          if_cases (λ o. IsSecure c P R (state_of o)) t'.encrypted
            (λ g. by_sealed t' h' (sealed (c.encrypt (first_key t'.aes_keys "") m))) (λ g. h')

  module _ (b : Bitcoin) where
    handle-IsSecure :
        (d : Drawn) (m : Message) (t : Transport)
        → P d.new_key
        → IsReceived c R m
        → IsSecure c P R t
        → IsSecure c P R (state_of (handle c b d m t))
    unfolding handle handle_challenge handle_auth_reply handle_forwarding
    handle-IsSecure d (Message.rpc_reply i payload) t p o h = h
    handle-IsSecure d (Message.liveliness none text) t p o h = h
    handle-IsSecure d (Message.liveliness (some i) text) t p o h = h
    handle-IsSecure d (Message.rsa_public_key key_pem) t p o h =
        handle_public_key-IsSecure key_pem d.new_key d.session t p h
    handle-IsSecure d (Message.encrypted text) t p o h = handle_test-IsSecure text t o h
    handle-IsSecure d m t p o h =
        same_claims c P R t (state_of (handle c b d m t)) (ground arith) (ground arith) h

    pub process_message-IsSecure :
        (d : Drawn) (text : String) (t : Transport)
        → P d.new_key
        → R text
        → IsSecure c P R t
        → IsSecure c P R (state_of (process_message c b d text t))
    unfolding process_message
    process_message-IsSecure d text t p q h = by_received (c.deserialize text) refl
      where
        by_decrypted :
            (m : Message) (r : Decrypted)
            → IsReceived c R m
            → Opened m r
            → IsSecure c P R (state_of (after_decrypt c (λ m'. handle c b d m' t) t r))
        by_decrypted m (message m') o (k, u, e) = handle-IsSecure d m' t p (opened_by k m m' o e) h
        by_decrypted m (failed e) o u = h
        by_decrypted m ends o u = h

        by_received :
            (r : Result Message)
            → c.deserialize text ≡ r
            → IsSecure c P R (state_of (received c b d r t))
        by_received (err e) g = h
        by_received (ok m) g =
            if_cases (λ o. IsSecure c P R (state_of o)) t.encrypted
              (λ e. by_decrypted m (decrypt c m t) (read text m q g) (decrypt-Opened m t h.0.0))
              (λ e. handle-IsSecure d m t p (read text m q g) h)
