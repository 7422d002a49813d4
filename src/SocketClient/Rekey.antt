-- ===== src/SocketClient/Rekey.antt =====
-- fluxrpc/transports/socket/client.py: the keys while the session key changes.
use aiotinyrpc.Base.{
  String, true, some, [], ◌∷◌, ◌≡◌, refl, ap, arith, if_cases, ◌∙◌, ◌⊎◌, inl, inr,
}
use aiotinyrpc.Python.Exc.{Exc, Result, ok, err}
use aiotinyrpc.Messages.{Message, Crypto, decrypt_message, sealed}
use aiotinyrpc.SocketClient.{Transport, state_of}
use aiotinyrpc.SocketClient.Handlers.{
  decrypt, handle_public_key, end_rekey, message, ends, is_value_error, rekeyed, with_session_key,
  send_or_raise, session_key_message, first_key, append_key, drop_key, decrypt_with, last_key,
}

module _ (c : Crypto) where
  -- The rest of the handler leaves the keys.
  abbrev SameKeys : Transport → Transport → Type 0
  SameKeys t t' =
      (t'.aes_keys ≡ t.aes_keys) × (t'.rekeying ≡ t.rekeying) × (t'.encrypted ≡ t.encrypted)

  send_or_raise-SameKeys :
      (t : Transport) (r : Result Message) → SameKeys t (state_of (send_or_raise c t r))
  send_or_raise-SameKeys t (ok m) = (refl, refl, refl)
  send_or_raise-SameKeys t (err e) = (refl, refl, refl)

  with_session_key-SameKeys :
      (t : Transport) (r : Result Message) → SameKeys t (state_of (with_session_key c t r))
  with_session_key-SameKeys t (ok m) =
      if_cases (λ o. SameKeys t (state_of o)) t.encrypted
        (λ e. send_or_raise-SameKeys t (sealed (c.encrypt (first_key t.aes_keys "") m)))
        (λ e. (refl, refl, refl))
  with_session_key-SameKeys t (err e) =
      if_cases (λ o. SameKeys t (state_of o)) (is_value_error e) (λ g. (refl, refl, refl))
        (λ g. (refl, refl, refl))

  -- A new key for an encrypted connection is the last one.
  handle_public_key-keys :
      (pem key drawn : String) (t : Transport)
      → t.encrypted ≡ true
      → ((state_of (handle_public_key c pem key drawn t)).aes_keys ≡ append_key t.aes_keys key)
        × ((state_of (handle_public_key c pem key drawn t)).rekeying ≡ some true)
        × ((state_of (handle_public_key c pem key drawn t)).encrypted ≡ true)
  unfolding handle_public_key
  handle_public_key-keys pem key drawn t e =
      let (a, b, d) =
        with_session_key-SameKeys (rekeyed c key t) (session_key_message c pem key drawn) in
      ground (arith, a, b, d, e)

  -- A message that the new key decrypts, or, where that is the wrong one, the old key.
  abbrev pub IsReadable : String → String → Message → Message → Type 0
  IsReadable old new m m' =
      (decrypt_message c new m ≡ ok m')
      ⊎ ((e : Exc) × (decrypt_message c new m ≡ err e)
          × (is_value_error e ≡ true)
          × (decrypt_message c old m ≡ ok m'))

  decrypt-both :
      (t : Transport) (old new : String) (m m' : Message)
      → t.aes_keys ≡ old ∷ new ∷ []
      → t.rekeying ≡ some true
      → IsReadable old new m m'
      → decrypt c m t ≡ message m'
  unfolding decrypt
  decrypt-both t old new m m' ks r (inl g) = ground arith
  decrypt-both t old new m m' ks r (inr (e, g, v, o)) = ground arith

  decrypt-ends : (t : Transport) (m : Message) → t.aes_keys ≡ [] → decrypt c m t ≡ ends
  unfolding decrypt
  decrypt-ends t m ks = ap (λ k. decrypt_with c m t (last_key k)) ks

  -- The transport after a new key came.
  abbrev pub rekeyed_by : String → String → String → Transport → Transport
  rekeyed_by pem key drawn t = state_of (handle_public_key c pem key drawn t)

  -- An encrypted client with one key gets a new one. A message that the new key decrypts, or that
  -- it refuses and the old one decrypts, is decrypted until `set_rekey(False)` comes, after which the
  -- new key is the only one.
  pub handle_public_key-both :
      (pem key drawn old : String) (t : Transport) (m m' : Message)
      → t.encrypted ≡ true
      → t.aes_keys ≡ old ∷ []
      → IsReadable old key m m'
      → (decrypt c m (rekeyed_by pem key drawn t) ≡ message m')
        × ((end_rekey (rekeyed_by pem key drawn t)).aes_keys ≡ key ∷ [])
  unfolding end_rekey
  handle_public_key-both pem key drawn old t m m' e one o =
      let (ks, r, u) = handle_public_key-keys pem key drawn t e in
      let both = ks ∙ ap (λ x. append_key x key) one in
      (decrypt-both (rekeyed_by pem key drawn t) old key m m' both r o, ap drop_key both)

  -- Two new keys before the first `set_rekey(False)`: after the second one no key is left, and
  -- whatever message comes next ends the program.
  pub handle_public_key-twice :
      (pem key drawn pem' key' drawn' old : String) (t : Transport) (m : Message)
      → t.encrypted ≡ true
      → t.aes_keys ≡ old ∷ []
      → decrypt c m
          (end_rekey (end_rekey (rekeyed_by pem' key' drawn' (rekeyed_by pem key drawn t))))
        ≡ ends
  unfolding end_rekey
  handle_public_key-twice pem key drawn pem' key' drawn' old t m e one =
      let (ks, r, u) = handle_public_key-keys pem key drawn t e in
      let (ks', r', u') = handle_public_key-keys pem' key' drawn' (rekeyed_by pem key drawn t) u in
      decrypt-ends
        (end_rekey (end_rekey (rekeyed_by pem' key' drawn' (rekeyed_by pem key drawn t)))) m
        (ap (λ x. drop_key (drop_key x))
          (ks' ∙ ap (λ x. append_key x key') (ks ∙ ap (λ x. append_key x key) one)))
