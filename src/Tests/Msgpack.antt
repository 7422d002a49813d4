-- ===== src/Tests/Msgpack.antt =====
-- MessagePack-RPC on concrete messages.
use aiotinyrpc.Base.{String, refl, false, some}
use aiotinyrpc.Python.Int.{pos, negsuc}
use aiotinyrpc.Python.Value.{Value, Values, int, str, list, nil, cons}
use aiotinyrpc.Msgpack.{Request, Response, failure, Ids}
use aiotinyrpc.Msgpack.Parse.{parse_request}
use aiotinyrpc.Msgpack.Spec.{IsMessage, parse_request_sound}

abbrev show : Value → String
show v = "<value>"

abbrev one_argument : Values
one_argument = cons (int (pos 4)) nil

abbrev numbers : Ids
numbers = record { generator = λ n. int (pos n); drawn = 0 }

abbrev request : Request
request = record { one_way = false; unique_id = int (pos 0); method = "halve"; args = one_argument }

abbrev message : Value
message =
    list
      (cons (int (pos 0)) (cons (int (pos 0)) (cons (str "halve") (cons (list one_argument) nil))))

abbrev failed : Response
failed = failure (int (pos 7)) (str "no") (some (negsuc 31999))

parse_request_sound_example : IsMessage message request
unfolding parse_request
parse_request_sound_example = parse_request_sound message request refl
