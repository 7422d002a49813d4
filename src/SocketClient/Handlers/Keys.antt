-- ===== src/SocketClient/Handlers/Keys.antt =====
-- fluxrpc/transports/socket/client.py: the session keys of a client, `decrypt`, and
-- `encryption_message_handler`.
use aiotinyrpc.Base.{
  suc, ◌-◌, String, str_eq, Bool, true, false, Option, none, some, List, [], ◌∷◌, if◌then◌else◌,
}
use aiotinyrpc.Base.Text.{reverse}
use aiotinyrpc.Python.Exc.{Exc, Result, ok, err, ◌>>=◌, raised, value_error}
use aiotinyrpc.Messages.{
  Message, session_key, aes_key, encrypted, test, liveliness, Crypto, decrypt_message, sealed,
  no_attribute,
}
use aiotinyrpc.SocketClient.{Transport, Outcome, done, raises, exits, send}

-- `deque(maxlen=2).append`
abbrev pub append_key : List String → String → List String
append_key [] k = k ∷ []
append_key (a ∷ []) k = a ∷ k ∷ []
append_key (a ∷ b ∷ ks) k = b ∷ k ∷ []

-- The first key of a deque that has one, or else the key that is given.
abbrev pub first_key : List String → String → String
first_key [] k = k
first_key (j ∷ ks) k = j

abbrev pub last_key : List String → Option String
last_key [] = none
last_key (k ∷ []) = some k
last_key (k ∷ l ∷ ks) = last_key (l ∷ ks)

abbrev pub drop_key : List String → List String
drop_key [] = []
drop_key (k ∷ ks) = ks

-- `set_rekey(False)`, called a second after a new key came. From an empty deque `popleft` raises,
-- which leaves it empty.
unfoldable pub end_rekey : Transport → Transport
end_rekey t = record t {
  rekeying = some false;
  rekey_timers = t.rekey_timers - 1;
  aes_keys = drop_key t.aes_keys;
}

abbrev pub is_value_error : Exc → Bool
is_value_error e = elim e.class [ value_error ↦ true | _ ↦ false ]

-- What `decrypt` comes to: a message, an exception, or the end of the program.
pub data Decrypted : Type 0 where
  message : Message → Decrypted
  failed : Exc → Decrypted
  ends : Decrypted

module _ (c : Crypto) where
  abbrev pub or_failed : Result Message → Decrypted
  or_failed (ok m) = message m
  or_failed (err e) = failed e

  -- A wrong key raises `ValueError`, and so does `self.rekeying` `AttributeError` before it is set.
  abbrev pub wrong_key : Message → Exc → String → Option Bool → Decrypted
  wrong_key m e old none = failed no_attribute
  wrong_key m e old (some true) = or_failed (decrypt_message c old m)
  wrong_key m e old (some false) = failed e

  abbrev pub with_new_key : Message → String → Option Bool → Result Message → Decrypted
  with_new_key m old rekeying (ok m') = message m'
  with_new_key m old rekeying (err e) =
      if is_value_error e then wrong_key m e old rekeying else ends

  abbrev pub decrypt_with : Message → Transport → Option String → Decrypted
  decrypt_with m t none = ends
  decrypt_with m t (some k) =
      with_new_key m (first_key t.aes_keys k) t.rekeying (decrypt_message c k m)

  unfoldable pub decrypt : Message → Transport → Decrypted
  unfolding raised
  decrypt m t = decrypt_with m t (last_key t.aes_keys)

  -- `session_key_message`, with the session key that it draws
  unfoldable pub session_key_message : String → String → String → Result Message
  session_key_message key_pem key drawn = do
    enc_key ← c.rsa_encrypt key_pem drawn
    aes_message ← c.encrypt drawn (aes_key key)
    ok (session_key (c.serialize (encrypted aes_message)) enc_key)

  -- `encryption_message_handler` of a public key, with the two keys that are drawn
  abbrev pub closes_writer : Transport → Outcome
  closes_writer t = done (record t { closing = true; connected = false })

  abbrev pub send_or_raise : Transport → Result Message → Outcome
  send_or_raise t (err e) = raises e t
  send_or_raise t (ok m) = done (send m t)

  abbrev pub with_session_key : Transport → Result Message → Outcome
  with_session_key t (err e) = if is_value_error e then closes_writer t else exits t
  with_session_key t (ok m) =
      if t.encrypted
      then send_or_raise t (sealed (c.encrypt (first_key t.aes_keys "") m))
      else done (send m t)

  abbrev pub rekeyed : String → Transport → Transport
  rekeyed key t =
      let t' = record t { aes_keys = append_key t.aes_keys key } in
      if t.encrypted
      then record t' { rekeying = some true; rekey_timers = suc t.rekey_timers }
      else t'

  unfoldable pub handle_public_key : String → String → String → Transport → Outcome
  unfolding session_key_message
  handle_public_key key_pem key drawn t =
      with_session_key (rekeyed key t) (session_key_message key_pem key drawn)

  -- `encryption_message_handler` of an encrypted message. The last key is there, since `decrypt` has
  -- used it.
  abbrev pub or_empty : Option String → String
  or_empty none = ""
  or_empty (some k) = k

  abbrev pub responded : Transport → Result String → Outcome
  responded t (err e) = exits t
  responded t (ok text) = done (record (send (encrypted text) t) { encrypted_event = true })

  abbrev pub question : String
  question = "TestEncryptionMessage"

  abbrev pub tested : Transport → Message → Outcome
  tested t (test fill text) =
      if str_eq text question
      then responded (record t { encrypted = true })
          (c.encrypt (or_empty (last_key t.aes_keys))
            (test (reverse fill) "TestEncryptionMessageResponse"))
      else closes_writer t
  tested t (liveliness chan_id text) =
      if str_eq text question
      then raises no_attribute (record t { encrypted = true })
      else closes_writer t
  tested t m = raises no_attribute t

  abbrev pub after_decrypt : (Message → Outcome) → Transport → Decrypted → Outcome
  after_decrypt next t (message m) = next m
  after_decrypt next t (failed e) = raises e t
  after_decrypt next t ends = exits t

  unfoldable pub handle_test : String → Transport → Outcome
  unfolding decrypt
  handle_test text t = after_decrypt (tested t) t (decrypt (encrypted text) t)
