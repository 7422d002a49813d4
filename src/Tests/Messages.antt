-- ===== src/Tests/Messages.antt =====
-- Messages of the socket as documents.
use aiotinyrpc.Base.{◌≡◌, refl, false, [], ◌∷◌, arith}
use aiotinyrpc.Python.Int.{pos}
use aiotinyrpc.Python.Value.{Fields, null, bool, int, str, bytes, end, field, nil}
use aiotinyrpc.Python.Exc.{ok, err, raised, value_error, type_error}
use aiotinyrpc.Messages.Types.{proxy_message, file_entry_stream_message, params}
use aiotinyrpc.Messages.Document.{Bson, Instance, document, serialize, deserialize, from_document}
use aiotinyrpc.Messages.Binding.{HasParams}
use aiotinyrpc.Messages.RoundTrip.{deserialize-serialize, deserialize-HasParams, Describes}

-- Documents go over the wire as they are.
abbrev bson : Bson Fields
bson = record { encode = λ d. ok d; decode = λ d. ok d }

abbrev entry : Instance
entry = record {
  class = file_entry_stream_message;
  attributes =
      field "data" (bytes (1 ∷ 2 ∷ [])) (field "path" (str "a") (field "eof" (bool false) end));
}

deserialize-serialize_example : deserialize bson (document entry) ≡ ok entry
unfolding params serialize
deserialize-serialize_example =
    deserialize-serialize bson entry (document entry) (λ d v h. ground arith)
      (refl, (refl, (refl, tt))) refl

-- A document that leaves out the fields with defaults.
abbrev short : Fields
short = field "proxy_target" (str "host") (field "_type" (int (pos 16)) end)

abbrev proxied : Instance
proxied = record {
  class = proxy_message;
  attributes = field "proxy_required" (bool false) (
      field "proxy_target" (str "host")
        (field "proxy_port" null (field "proxy_ssl_required" (bool false) end)));
}

deserialize-HasParams_example :
    HasParams (params proxied.class) proxied.attributes
    × ((d : Fields) × (bson.decode short ≡ ok d) × Describes d proxied)
unfolding deserialize from_document
deserialize-HasParams_example = deserialize-HasParams bson short proxied refl

unknown_type : deserialize bson (field "_type" (int (pos 21)) end) ≡ err (raised value_error nil)
unfolding deserialize
unknown_type = refl

extra_field :
    deserialize bson (field "_type" (int (pos 19)) (field "more" (int (pos 1)) end))
    ≡ err (raised type_error nil)
unfolding deserialize
extra_field = refl
