-- ===== src/Messages/RoundTrip.antt =====
-- fluxrpc/transports/socket/messages.py: what `deserialize` makes of the document of a message, and
-- what it makes at all.
use aiotinyrpc.Base.{◌≡◌, refl, true, false, some, arith, subst, sym, Option-cases, inl, inr}
use aiotinyrpc.Python.Int.{pos}
use aiotinyrpc.Python.Value.{Value, Fields, int, nil, get}
use aiotinyrpc.Python.Exc.{ok, ◌>>=◌, raised, type_error, bind-eq-ok, require-eq-ok, Result-cases}
use aiotinyrpc.Messages.Types.{
  MessageType, number, params, challenge_message, challenge_reply_message, auth_reply_message,
  error_message, serialized_message, rpc_request_message, rpc_reply_message, pty_message,
  pty_resize_message, pty_closed_message, session_key_message, aes_key_message,
  rsa_public_key_message, encrypted_message, test_message, proxy_message, proxy_response_message,
  file_entry_stream_message, liveliness_message, aes_rekey_message,
}
use aiotinyrpc.Messages.Document.{
  Bson, Instance, del_item, message_type, is_param, all_params, bind_params, construct, type_of,
  document, from_document, serialize, deserialize,
}
use aiotinyrpc.Messages.Binding.{
  HasParams, bind_params-HasParams, del_item-set_item, get-set_item, get-HasParams,
  all_params-HasParams, nodup, Agrees-refl, bind_params-Agrees,
}

names_lem : (t : MessageType) → (nodup (params t) ≡ true) × (is_param "_type" (params t) ≡ false)
unfolding nodup params is_param
names_lem challenge_message = (refl, refl)
names_lem challenge_reply_message = (refl, refl)
names_lem auth_reply_message = (refl, refl)
names_lem error_message = (refl, refl)
names_lem serialized_message = (refl, refl)
names_lem rpc_request_message = (refl, refl)
names_lem rpc_reply_message = (refl, refl)
names_lem pty_message = (refl, refl)
names_lem pty_resize_message = (refl, refl)
names_lem pty_closed_message = (refl, refl)
names_lem session_key_message = (refl, refl)
names_lem aes_key_message = (refl, refl)
names_lem rsa_public_key_message = (refl, refl)
names_lem encrypted_message = (refl, refl)
names_lem test_message = (refl, refl)
names_lem proxy_message = (refl, refl)
names_lem proxy_response_message = (refl, refl)
names_lem file_entry_stream_message = (refl, refl)
names_lem liveliness_message = (refl, refl)
names_lem aes_rekey_message = (refl, refl)

message_type-number : (t : MessageType) → message_type (int (pos (number t))) ≡ ok t
unfolding message_type
message_type-number challenge_message = refl
message_type-number challenge_reply_message = refl
message_type-number auth_reply_message = refl
message_type-number error_message = refl
message_type-number serialized_message = refl
message_type-number rpc_request_message = refl
message_type-number rpc_reply_message = refl
message_type-number pty_message = refl
message_type-number pty_resize_message = refl
message_type-number pty_closed_message = refl
message_type-number session_key_message = refl
message_type-number aes_key_message = refl
message_type-number rsa_public_key_message = refl
message_type-number encrypted_message = refl
message_type-number test_message = refl
message_type-number proxy_message = refl
message_type-number proxy_response_message = refl
message_type-number file_entry_stream_message = refl
message_type-number liveliness_message = refl
message_type-number aes_rekey_message = refl

construct-HasParams :
    (t : MessageType) (a : Fields)
    → HasParams (params t) a
    → construct t a ≡ ok (record { class = t; attributes = a })
unfolding construct
construct-HasParams t a has = ground (
  arith,
  all_params-HasParams (params t) (params t) a (λ k h. h) has,
  bind_params-Agrees (params t) a a has (Agrees-refl (params t) a has (names_lem t).0),
)

from_document-document :
    (m : Instance) → HasParams (params m.class) m.attributes → from_document (document m) ≡ ok m
unfolding from_document document
from_document-document m has =
    let no_type = get-HasParams "_type" (params m.class) m.attributes has (names_lem m.class).1 in
    let n = int (pos (number m.class)) in
    ground (
      arith,
      get-set_item "_type" n m.attributes,
      message_type-number m.class,
      del_item-set_item "_type" n m.attributes no_type,
      construct-HasParams m.class m.attributes has,
    )

construct-eq-ok :
    (t : MessageType) (d : Fields) (m : Instance)
    → construct t d ≡ ok m
    → (m.class ≡ t)
      × (bind_params (params t) d ≡ ok m.attributes)
      × (all_params (params t) d ≡ true)
unfolding construct
construct-eq-ok t d m h =
    let (known, h') =
      require-eq-ok (all_params (params t) d) (raised type_error nil)
        (do
          attributes ← bind_params (params t) d
          ok (record { class = t; attributes = attributes }))
        h in
    elim (Result-cases (bind_params (params t) d)) [
      | inr (e, he) ↦ absurd (ground arith)
      | inl (a, ha) ↦ (ground arith, ground arith, known)
    ]

type_of-eq-ok : (d : Fields) (v : Value) → type_of d ≡ ok v → get d "_type" ≡ some v
type_of-eq-ok d v h = elim (Option-cases (get d "_type")) [
  | inl e ↦ absurd (ground arith)
  | inr (w, e) ↦ ground arith
]

-- The document named the class of the message, and its other keys are fields of that class.
abbrev pub Describes : Fields → Instance → Type 0
Describes d m =
    (v : Value) × (get d "_type" ≡ some v)
    × (message_type v ≡ ok m.class)
    × (all_params (params m.class) (del_item "_type" d) ≡ true)

from_document-Describes :
    (d : Fields) (m : Instance)
    → from_document d ≡ ok m
    → HasParams (params m.class) m.attributes × Describes d m
unfolding from_document
from_document-Describes d m h =
    let (v, h1, hv) = bind-eq-ok (type_of d) _ h in
    let (t, h2, ht) = bind-eq-ok (message_type v) _ h1 in
    let (same, bound, known) = construct-eq-ok t (del_item "_type" d) m h2 in
    (
      subst (λ x. HasParams (params x) m.attributes) (sym same)
          (bind_params-HasParams (params t) (del_item "_type" d) m.attributes bound),
      (
        v,
        type_of-eq-ok d v hv,
        subst (λ x. message_type v ≡ ok x) (sym same) ht,
        subst (λ x. all_params (params x) (del_item "_type" d) ≡ true) (sym same) known,
      ),
    )

module _ {Wire : Type 0} (bson : Bson Wire) where
  -- What a message is serialized to is deserialized to that message, of any class, where `bson`
  -- decodes what it encoded.
  pub deserialize-serialize :
      (m : Instance) (w : Wire)
      → ((d : Fields) (v : Wire) → bson.encode d ≡ ok v → bson.decode v ≡ ok d)
      → HasParams (params m.class) m.attributes
      → serialize bson m ≡ ok w
      → deserialize bson w ≡ ok m
  unfolding serialize deserialize
  deserialize-serialize m w law has h =
      ground (arith, law (document m) w h, from_document-document m has)

  -- Whatever a peer sends, a message that comes of it has the attributes of its class, one for one
  -- and in order, and the document named that class and no other fields.
  pub deserialize-HasParams :
      (w : Wire) (m : Instance)
      → deserialize bson w ≡ ok m
      → HasParams (params m.class) m.attributes
        × ((d : Fields) × (bson.decode w ≡ ok d) × Describes d m)
  unfolding deserialize
  deserialize-HasParams w m h =
      let (d, h', decoded) = bind-eq-ok (bson.decode w) _ h in
      let (has, describes) = from_document-Describes d m h' in (has, (d, decoded, describes))
