-- ===== src/Transports/Cgi.antt =====
-- fluxrpc/transports/cgi.py: `CGIServerTransport`. Python's `int` of a text, `unquote` of `urllib`,
-- what standard input reads, and the decoding of bytes are parameters.
use Prim.Native.String.{◌++◌ as ◌<>◌}
use aiotinyrpc.Base.{
  ℕ, ◌≡◌, String, str_eq, str_eq_iff, Option, none, some, List, [], ◌∷◌, ◌++◌, arith, if◌then◌else◌,
  length, Option-cases, inl, inr,
}
use aiotinyrpc.Base.Dict.{Dict, lookup}
use aiotinyrpc.Python.Exc.{Exc, Result, ok, err, raised_text, key_error, Result-cases}
use aiotinyrpc.Transports.Abstract.{Bytes}

-- `receive_message` ends the program after it has printed that a method is not allowed.
pub data Outcome : Type 0 where
  exits : List String → Outcome
  raises : Exc → Outcome
  returned : String → Outcome

abbrev refused : Outcome
refused = exits ("Status: 405 Method not Allowed; only POST is accepted" ∷ [])

module _ (int : String → Result ℕ) (unquote : String → String) where
  abbrev read_body : Result ℕ → (ℕ → String) → Outcome
  read_body (err e) read = raises e
  read_body (ok n) read = returned (unquote (read n))

  abbrev post_body : Option String → (ℕ → String) → Outcome
  post_body none read = raises (raised_text key_error "CONTENT_LENGTH")
  post_body (some t) read = read_body (int t) read

  -- `receive_message`, with `os.environ` and `sys.stdin.read`
  unfoldable pub receive_message : Dict String → (ℕ → String) → Outcome
  unfolding lookup raised_text
  receive_message environ read = elim (lookup "REQUEST_METHOD" environ) [
    | none ↦ refused
    | some method ↦
        if str_eq method "POST" then post_body (lookup "CONTENT_LENGTH" environ) read else refused
  ]

  -- A message is returned for a POST with a length alone, and it is what the body reads up to that
  -- length once it is unquoted.
  pub receive_message-cases :
      (environ : Dict String) (read : ℕ → String) (message : String)
      → receive_message environ read ≡ returned message
      → (text : String) × (n : ℕ) × (lookup "REQUEST_METHOD" environ ≡ some "POST")
        × (lookup "CONTENT_LENGTH" environ ≡ some text)
        × (int text ≡ ok n)
        × (message ≡ unquote (read n))
  unfolding receive_message
  receive_message-cases environ read message h =
      elim (Option-cases (lookup "REQUEST_METHOD" environ)) [
        | inl e ↦ absurd (ground arith)
        | inr (method, e) ↦ elim (Option-cases (lookup "CONTENT_LENGTH" environ)) [
          | inl l ↦ absurd (ground (arith, str_eq_iff method "POST"))
          | inr (text, l) ↦ elim (Result-cases (int text)) [
            | inr (x, i) ↦ absurd (ground (arith, str_eq_iff method "POST"))
            | inl (n, i) ↦ (
              text,
              n,
              ground (arith, str_eq_iff method "POST"),
              l,
              i,
              ground (arith, str_eq_iff method "POST"),
            )
          ]
        ]
      ]

-- `send_reply`: the lines that it prints. The headers are out when the decoding raises.
module _ (decode : Bytes → Result String) (str : ℕ → String) where
  abbrev headers : ℕ → List String
  headers n =
      "Status: 200 OK"
      ∷ "Content-Type: application/json"
      ∷ "Cache-Control: no-cache"
      ∷ "Pragma: no-cache"
      ∷ ("Content-Length: " <> str n)
      ∷ ""
      ∷ []

  unfoldable pub send_reply : Bytes → Result (Unit {0}) × List String
  send_reply reply = elim (decode reply) [
    | err e ↦ (err e, headers (length reply))
    | ok text ↦ (ok tt, headers (length reply) ++ (text ∷ []))
  ]
