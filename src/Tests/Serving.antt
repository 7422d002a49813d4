-- ===== src/Tests/Serving.antt =====
-- A server that receives a call and a notification, whose tasks run in the other order.
use aiotinyrpc.Base.{◌≡◌, refl, String, false, some, List, [], ◌∷◌}
use aiotinyrpc.Python.Value.{Value, dict}
use aiotinyrpc.Jsonrpc.{request_to_dict}
use aiotinyrpc.Base.Dict.{lookup}
use aiotinyrpc.Jsonrpc.{request_error_respond}
use aiotinyrpc.Jsonrpc.Parse.{parse_request, parse_subrequest, parse_dict}
use aiotinyrpc.Dispatch.{dispatch_request, get_method, validate_parameters}
use aiotinyrpc.Server.{dispatch}
use aiotinyrpc.Tests.Server.{server, request, notification}
use aiotinyrpc.Server.Loop.{
  Packet, Loop, Event, receives, handles, started, serve, step, run_task, receive_one_message,
  take_task,
}
use aiotinyrpc.Server.Serving.{replies, serve-finishes}
use aiotinyrpc.Server.Traces.{in_order}
use mathlib.Core.List.{Perm}

abbrev called : Packet String Value
called = record {
  context = "peer";
  channel = 3;
  message = dict (request_to_dict (request "double"));
}

abbrev notified : Packet String Value
notified = record { context = "other"; channel = 4; message = dict notification }

abbrev events : List (Event String Value)
events = receives called ∷ receives notified ∷ handles 1 ∷ []

abbrev reached : Loop String Value
reached = record {
  trace = false;
  tasks = called ∷ [];
  received = called ∷ notified ∷ [];
  handled = notified ∷ [];
  sent = [];
  traced = [];
}

serve-finishes_example :
    (l' : Loop String Value) × (serve server (in_order (called ∷ [])) reached ≡ some l')
    × (l'.received ≡ called ∷ notified ∷ [])
    × Perm l'.received l'.handled
    × (l'.sent ≡ replies server l'.handled)
unfolding serve step run_task receive_one_message take_task started parse_request parse_subrequest
    parse_dict dispatch dispatch_request get_method lookup validate_parameters request_error_respond
serve-finishes_example = serve-finishes server false events reached refl
