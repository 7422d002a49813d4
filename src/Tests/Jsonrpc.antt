-- ===== src/Tests/Jsonrpc.antt =====
-- Requests, replies and the pending list on concrete data.
use aiotinyrpc.Base.{String, ◌≡◌, refl, true, false, none, some, [], ◌∷◌}
use aiotinyrpc.Python.Int.{pos}
use aiotinyrpc.Python.Value.{Value, Values, Fields, int, str, list, dict, nil, cons, end, field}
use aiotinyrpc.Python.Exc.{ok}
use aiotinyrpc.Jsonrpc.{Request, Response, success, request_to_dict, response_to_dict}
use aiotinyrpc.Jsonrpc.Parse.{parse_dict}
use aiotinyrpc.Jsonrpc.Protocol.{
  Protocol, new_protocol, default_id_generator, create_request, parse_subreply, contains,
}
use aiotinyrpc.Jsonrpc.RoundTrip.{parse_dict-request_to_dict, parse_subreply-response}
use aiotinyrpc.Jsonrpc.Pending.{creates, reads, run, opened, IsBalanced, run-IsBalanced}
use aiotinyrpc.Jsonrpc.Accepts.{IsRequest, parse_dict_sound, parse_dict_complete}

abbrev client : Protocol
client = new_protocol (default_id_generator 1)

abbrev arguments : Values
arguments = cons (int (pos 4)) (cons (str "x") nil)

abbrev request : Request
request = record {
  one_way = false;
  unique_id = int (pos 1);
  method = "subtract";
  args = arguments;
  kwargs = end;
}

abbrev waiting : Protocol
waiting = record client { drawn = 1; pending = int (pos 1) ∷ [] }

made : create_request client "subtract" (some arguments) (some end) false ≡ (ok request, waiting)
unfolding create_request
made = refl

abbrev show : Value → String
show v = "<value>"

abbrev reply : Response
reply = success (int (pos 1)) (str "done")

parse_dict-request_to_dict_example : parse_dict (request_to_dict request) ≡ ok request
parse_dict-request_to_dict_example =
    parse_dict-request_to_dict client waiting "subtract" (some arguments) (some end) false request
      tt made

accepted :
    parse_subreply waiting (dict (response_to_dict show reply))
    ≡ (ok reply, record waiting { pending = [] })
unfolding contains
accepted =
    parse_subreply-response show client waiting "subtract" (some arguments) (some end) request reply
      tt refl made tt refl

run-IsBalanced_example : IsBalanced (
    run (opened (default_id_generator 1)) (
      creates "a" none none false
      ∷ creates "b" none none true
      ∷ reads (dict (response_to_dict show reply))
      ∷ []))
run-IsBalanced_example = run-IsBalanced (default_id_generator 1) (
    creates "a" none none false
    ∷ creates "b" none none true
    ∷ reads (dict (response_to_dict show reply))
    ∷ [])

abbrev document : Fields
document = field "jsonrpc" (str "2.0") (
    field "method" (str "subtract")
      (field "params" (list arguments) (field "id" (int (pos 1)) end)))

parse_dict_sound_example : IsRequest document request
unfolding parse_dict
parse_dict_sound_example = parse_dict_sound document request refl

parse_dict_complete_example : parse_dict document ≡ ok request
unfolding parse_dict
parse_dict_complete_example =
    parse_dict_complete document request (parse_dict_sound document request refl)
