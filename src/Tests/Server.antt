-- ===== src/Tests/Server.antt =====
-- A server over a codec that carries documents as they are, and calls from end to end.
use aiotinyrpc.Client.Proxy.{Setting, notifies, sets_timeout}
use aiotinyrpc.Base.{List, String, ◌≡◌, refl, true, false, Option, none, some, [], ◌∷◌, arith}
use aiotinyrpc.Base.Dict.{lookup}
use aiotinyrpc.Python.Int.{pos, negsuc}
use aiotinyrpc.Python.Text.{str_exc}
use aiotinyrpc.Python.Value.{
  get, Value, Values, Fields, null, bool, int, str, bytes, list, dict, nil, cons, end, field,
}
use aiotinyrpc.Python.Exc.{
  Exc, Result, ok, err, isinstance, raised, raised_text, type_error, value_error, key_error,
}
use aiotinyrpc.Jsonrpc.{Request, Response, success, failure, request_to_dict, response_to_dict}
use aiotinyrpc.Jsonrpc.Protocol
use aiotinyrpc.Jsonrpc.Protocol.{
  Protocol, new_protocol, default_id_generator, create_request, contains, parse_reply,
}
use aiotinyrpc.Dispatch.{Method, dispatcher, no_plugins, get_method, validate_parameters}
use aiotinyrpc.Server.{Server, Codec, IsBson, handle_message}
use aiotinyrpc.Server.Calls.{call-raises}
use aiotinyrpc.Server.Reported.{failure_of, plain}
use aiotinyrpc.Client.{call, direct}
use aiotinyrpc.Client.Calls.{call-result}
use aiotinyrpc.Server.Failures.{handle_message-no_method}
use aiotinyrpc.Server.Progress.{handle_message-raises, Unanswered}

abbrev only_documents : Value → Result Value
only_documents (dict d) = ok (dict d)
only_documents v = err (raised type_error nil)

abbrev codec : Codec Value
codec = record { encode = only_documents; decode = only_documents; json_dumps = λ vs. ok (list vs) }

only_documents-again :
    (d : Fields) (w : Value) → only_documents (dict d) ≡ ok w → only_documents w ≡ ok (dict d)
only_documents-again d w h = ground arith

only_documents-dict : (w v : Value) → only_documents w ≡ ok v → (d : Fields) × (v ≡ dict d)
only_documents-dict (dict d) v h = (d, ground arith)
only_documents-dict null v h = absurd (ground arith)
only_documents-dict (bool b) v h = absurd (ground arith)
only_documents-dict (int n) v h = absurd (ground arith)
only_documents-dict (str t) v h = absurd (ground arith)
only_documents-dict (bytes b) v h = absurd (ground arith)
only_documents-dict (list vs) v h = absurd (ground arith)

codec-IsBson : IsBson codec
codec-IsBson = record {
  decode-encode = only_documents-again;
  decodes_documents = only_documents-dict;
}

abbrev oops : Exc
oops = raised_text value_error "oops"

abbrev double : Method
double = record {
  name = "double";
  is_coroutine = false;
  has_code = true;
  accepts = λ args kwargs. true;
  call = λ args kwargs. ok (list (cons (list args) (cons (list args) nil)));
}

abbrev broken : Method
broken = record double { name = "broken"; call = λ args kwargs. err oops }

abbrev pub server : Server Value
server = record {
  dispatcher = dispatcher "" (("double", double) ∷ ("broken", broken) ∷ []) no_plugins [];
  validator = some validate_parameters;
  render = λ v. "<value>";
  codec = codec;
}

abbrev client : Protocol
client = new_protocol (default_id_generator 1)

abbrev waiting : Protocol
waiting = record client { drawn = 1; pending = int (pos 1) ∷ [] }

abbrev client' : Protocol
client' = record client { drawn = 1 }

abbrev pub request : String → Request
request name = record {
  one_way = false;
  unique_id = int (pos 1);
  method = name;
  args = cons (int (pos 7)) nil;
  kwargs = end;
}

abbrev args : Option Values
args = some (cons (int (pos 7)) nil)

abbrev doubled : Response
doubled =
    success (int (pos 1))
      (list (cons (list (cons (int (pos 7)) nil)) (cons (list (cons (int (pos 7)) nil)) nil)))

abbrev raised_oops : Response
raised_oops = failure_of (int (pos 1)) (negsuc 31999) "oops" null

call-raises_example :
    (handle_message server (dict (request_to_dict (request "broken")))
      ≡ ok (some (dict (response_to_dict server.render raised_oops))))
    × (parse_reply server.render codec.decode waiting
          (dict (response_to_dict server.render raised_oops))
        ≡ (ok (Protocol.single raised_oops), record waiting { pending = [] }))
unfolding create_request get_method lookup validate_parameters contains raised_text isinstance
    str_exc
call-raises_example =
    call-raises server codec-IsBson client waiting "broken" args none (request "broken")
      (dict (request_to_dict (request "broken")))
      (dict (response_to_dict server.render raised_oops)) tt refl refl refl broken oops
      (negsuc 31999) "oops" null refl refl (plain refl refl refl refl (λ m d h. cc h)) refl

abbrev not_found : Response
not_found = failure (int (pos 1)) (str "Method not found") (int (negsuc 32600)) none

abbrev pub notification : Fields
notification = field "jsonrpc" (str "2.0") (field "method" (str "broken") end)

abbrev old_version : Fields
old_version =
    field "jsonrpc" (str "1.0") (field "method" (str "double") (field "id" (int (pos 3)) end))

abbrev no_method : Fields
no_method = field "jsonrpc" (str "2.0") (field "id" (int (pos 3)) end)

without_method : handle_message server (dict no_method) ≡ err (raised_text key_error "method")
unfolding get
without_method = handle_message-no_method server (dict no_method) no_method refl refl refl refl

handle_message-raises_example : Unanswered server (dict no_method) (raised_text key_error "method")
handle_message-raises_example =
    handle_message-raises server codec-IsBson (dict no_method) (raised_text key_error "method")
      without_method

call-result_example :
    call codec server.render (λ w. false) (direct server) client "double" args none false ≡ (
      ok (
          some (
            list
              (cons (list (cons (int (pos 7)) nil)) (cons (list (cons (int (pos 7)) nil)) nil)))),
      client',
    )
unfolding create_request get_method lookup validate_parameters contains
call-result_example =
    call-result server codec-IsBson (λ w. false) client waiting "double" args none
      (request "double") (dict (request_to_dict (request "double")))
      (dict (response_to_dict server.render doubled)) tt refl refl refl refl double _ refl refl refl

-- A proxy for a plugin, of whose calls the first and the third are one way.
abbrev uses : List (List Setting × String)
uses = (notifies ∷ sets_timeout 3 ∷ [], "a") ∷ ([], "b") ∷ (notifies ∷ [], "c") ∷ []
