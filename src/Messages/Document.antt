-- ===== src/Messages/Document.antt =====
-- fluxrpc/transports/socket/messages.py: `Message.serialize` and `Message.deserialize`. A message is
-- its class with its `__dict__`; the package `bson` is a parameter.
use aiotinyrpc.Base.{
  String, str_eq, Bool, true, false, ◌&&◌, ◌||◌, Option, none, some, List, [], ◌∷◌, if◌then◌else◌,
}
use aiotinyrpc.Python.Int.{pos}
use aiotinyrpc.Python.Value.{Value, Fields, end, field, int, nil, get, py_eq}
use aiotinyrpc.Python.Exc.{
  Result, ok, err, ◌>>=◌, ◌>>◌, require, raised, raised_text, key_error, value_error, type_error,
}
use aiotinyrpc.Messages.Types.{MessageType, number, all_types, Params, params}

pub record Bson (Wire : Type 0) : Type 0 where
  pub encode : Fields → Result Wire
  pub decode : Wire → Result Fields

pub record Instance : Type 0 where
  pub class : MessageType
  pub attributes : Fields

-- `d[k] = v`
unfoldable pub set_item : String → Value → Fields → Fields
set_item k v end = field k v end
set_item k v (field j w d) = if str_eq j k then field j v d else field j w (set_item k v d)

-- `del d[k]`; a dict has a key once
unfoldable pub del_item : String → Fields → Fields
del_item k end = end
del_item k (field j w d) = let rest = del_item k d in if str_eq j k then rest else field j w rest

-- `MessageTypes(v)`
abbrev find_type : Value → List MessageType → Result MessageType
find_type v [] = err (raised value_error nil)
find_type v (t ∷ ts) =
    let rest = find_type v ts in if py_eq (int (pos (number t))) v then ok t else rest

unfoldable pub message_type : Value → Result MessageType
unfolding py_eq number raised
message_type v = find_type v all_types

-- `klass(**d)`: every key is a field, and every field has a value.
unfoldable pub is_param : String → Params → Bool
is_param k [] = false
is_param k ((j, default) ∷ ps) = str_eq j k || is_param k ps

unfoldable pub all_params : Params → Fields → Bool
unfolding is_param
all_params ps end = true
all_params ps (field k v d) = is_param k ps && all_params ps d

abbrev pub given : Option Value → Option Value → Result Value
given (some v) default = ok v
given none (some v) = ok v
given none none = err (raised type_error nil)

unfoldable pub bind_params : Params → Fields → Result Fields
unfolding get raised
bind_params [] d = ok end
bind_params ((k, default) ∷ ps) d = do
  v ← given (get d k) default
  rest ← bind_params ps d
  ok (field k v rest)

unfoldable pub construct : MessageType → Fields → Result Instance
unfolding all_params bind_params params raised
construct t d = require (all_params (params t) d) (raised type_error nil) >> (do
  attributes ← bind_params (params t) d
  ok (record { class = t; attributes = attributes }))

-- The document of a message, which `serialize` leaves in its `__dict__`.
unfoldable pub document : Instance → Fields
unfolding set_item number
document m = set_item "_type" (int (pos (number m.class))) m.attributes

abbrev pub type_of : Fields → Result Value
type_of d = elim (get d "_type") [ none ↦ err (raised_text key_error "_type") | some v ↦ ok v ]

unfoldable pub from_document : Fields → Result Instance
unfolding get message_type del_item construct raised_text
from_document d = do v ← type_of d; t ← message_type v; construct t (del_item "_type" d)

module _ {Wire : Type 0} (bson : Bson Wire) where
  unfoldable pub serialize : Instance → Result Wire
  unfolding document
  serialize m = bson.encode (document m)

  unfoldable pub deserialize : Wire → Result Instance
  unfolding from_document
  deserialize w = do decoded ← bson.decode w; from_document decoded
