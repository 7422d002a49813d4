-- ===== src/SocketClient/Secure.antt =====
-- fluxrpc/transports/socket/client.py: what `connected` of a client says of the keys.
pub mod Handlers
use aiotinyrpc.Base.{
  String, str_eq, str_eq_iff, ◌≡◌, refl, sym, Bool, true, false, ◌||◌, Option, none, some, List, [],
  ◌∷◌, arith, if_cases, ◌∙◌, ap, subst, ◌≤◌, All, length,
}
use aiotinyrpc.Python.Exc.{Exc, Result, ok, err}
use aiotinyrpc.Base.Text.{reverse}
use aiotinyrpc.Auth.{Bitcoin}
use aiotinyrpc.Messages.{Message, encrypted, test, Crypto, decrypt_message, sealed}
use aiotinyrpc.SocketClient.{Transport, state_of}
use aiotinyrpc.SocketClient.Handlers.{
  or_empty, append_key, drop_key, Drawn, process_message, handle, decrypt, handle_challenge,
  handle_auth_reply, handle_forwarding, handle_public_key, handle_test, Decrypted, message, failed,
  ends, after_decrypt, received, first_key, last_key, with_new_key, wrong_key, decrypt_with, tested,
  responded, with_session_key, session_key_message, is_value_error, rekeyed, or_failed,
  send_or_raise,
}

-- What a client has read, in clear or by decrypting what it has read.
module _ (c : Crypto) (R : String → Type 0) where
  pub data IsReceived : Message → Type 0 where
    read : (text : String) (m : Message) → R text → c.deserialize text ≡ ok m → IsReceived m
    opened_by :
        (k : String) (m m' : Message) → IsReceived m → decrypt_message c k m ≡ ok m' → IsReceived m'

-- A message that was read decrypts, under a key of the client's, to the test message of the other
-- end.
pub record IsTested (c : Crypto) (P R : String → Type 0) : Type 0 where
  pub key : String
  pub text : String
  pub fill : String
  pub own_key : P key
  pub was_read : IsReceived c R (encrypted text)
  pub is_test : decrypt_message c key (encrypted text) ≡ ok (test fill "TestEncryptionMessage")

abbrev pub claims : Transport → Bool
claims t = t.connected || t.encrypted_event

-- Two keys of the client's at most.
abbrev pub HasKeys : (String → Type 0) → List String → Type 0
HasKeys P ks = All P ks × (length ks ≤ 2)

-- Whoever is connected, or about to be, has seen the test message.
abbrev pub IsSecure : Crypto → (String → Type 0) → (String → Type 0) → Transport → Type 0
IsSecure c P R t = HasKeys P t.aes_keys × (claims t ≡ true → IsTested c P R)

module _ (P : String → Type 0) where
  pub append_key-HasKeys :
      (ks : List String) (k : String) → HasKeys P ks → P k → HasKeys P (append_key ks k)
  append_key-HasKeys [] k h p = ((p, tt), omega arith)
  append_key-HasKeys (a ∷ []) k ((pa, u), n) p = ((pa, (p, tt)), omega arith)
  append_key-HasKeys (a ∷ b ∷ []) k ((pa, (pb, u)), n) p = ((pb, (p, tt)), omega arith)
  append_key-HasKeys (a ∷ b ∷ d ∷ ks) k (h, n) p = absurd (omega (arith, n))

  pub drop_key-HasKeys : (ks : List String) → HasKeys P ks → HasKeys P (drop_key ks)
  drop_key-HasKeys [] h = h
  drop_key-HasKeys (k ∷ ks) ((p, h), n) = (h, omega (arith, n))

  pub last_key-own : (ks : List String) (k : String) → All P ks → last_key ks ≡ some k → P k
  last_key-own [] k h e = cc e
  last_key-own (a ∷ []) k (p, h) e = ground (arith, e, p)
  last_key-own (a ∷ b ∷ ks) k (p, h) e = last_key-own (b ∷ ks) k h e

  pub first_key-own : (ks : List String) (k : String) → All P ks → P k → P (first_key ks k)
  first_key-own [] k h q = q
  first_key-own (a ∷ ks) k (p, h) q = p

module _ (c : Crypto) (P R : String → Type 0) where
  pub weaker :
      (t t' : Transport)
      → t'.aes_keys ≡ t.aes_keys
      → (claims t' ≡ true → claims t ≡ true)
      → IsSecure c P R t
      → IsSecure c P R t'
  weaker t t' same w (ks, h) = (subst (HasKeys P) (sym same) ks, λ e. h (w e))

  pub closed-IsSecure :
      (t : Transport)
      → IsSecure c P R t
      → IsSecure c P R (record t { closing = true; connected = false })
  closed-IsSecure t h =
      weaker t (record t { closing = true; connected = false }) refl (λ e. ground arith) h

  pub same_claims :
      (t t' : Transport)
      → t'.aes_keys ≡ t.aes_keys
      → claims t' ≡ claims t
      → IsSecure c P R t
      → IsSecure c P R t'
  same_claims t t' same e h = weaker t t' same (λ e'. sym e ∙ e') h
