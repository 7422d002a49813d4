-- ===== src/Transports/Http.antt =====
-- fluxrpc/transports/http.py: `HttpPostClientTransport`. What its `post` does with the endpoint, the
-- message and the other arguments is a parameter.
use aiotinyrpc.Base.{◌≡◌, Bool, true, false, Option, none, some, arith, Option-cases, inl, inr}
use aiotinyrpc.Python.Value.{Value, null, bool, int, str, bytes, list, dict}
use aiotinyrpc.Python.Exc.{Exc, Result, ok, err, raised_text, type_error, Result-cases}
use aiotinyrpc.Transports.Abstract.{Bytes}

unfoldable pub not_bytes : Exc
unfolding raised_text
not_bytes = raised_text type_error "message must by of type bytes"

-- `isinstance(message, bytes)`
abbrev pub bytes_of : Value → Option Bytes
bytes_of (bytes b) = some b
bytes_of _ = none

abbrev pub reply_if : Bool → Bytes → Option Bytes
reply_if true r = some r
reply_if false r = none

pub bytes_of-cases : (v : Value) (b : Bytes) → bytes_of v ≡ some b → v ≡ bytes b
bytes_of-cases (bytes c) b h = ground arith
bytes_of-cases null b h = cc
bytes_of-cases (bool c) b h = cc
bytes_of-cases (int n) b h = cc
bytes_of-cases (str s) b h = cc
bytes_of-cases (list vs) b h = cc
bytes_of-cases (dict d) b h = cc

module _ (post : Bytes → Result Bytes) where
  -- `send_message`
  unfoldable pub send_message : Value → Bool → Result (Option Bytes)
  unfolding not_bytes
  send_message message expect_reply = elim (bytes_of message) [
    | none ↦ err not_bytes
    | some message_bytes ↦ elim (post message_bytes) [
      | err e ↦ err e
      | ok content ↦ ok (reply_if expect_reply content)
    ]
  ]

  -- A call that returns has posted its message, which is bytes, as it is, and returns the content
  -- of the response if a reply is expected.
  pub send_message-cases :
      (message : Value) (expect_reply : Bool) (r : Option Bytes)
      → send_message message expect_reply ≡ ok r
      → (b : Bytes) × (content : Bytes) × (message ≡ bytes b)
        × (post b ≡ ok content)
        × (r ≡ reply_if expect_reply content)
  unfolding send_message
  send_message-cases message expect_reply r h = elim (Option-cases (bytes_of message)) [
    | inl e ↦ absurd (ground arith)
    | inr (b, e) ↦ elim (Result-cases (post b)) [
      | inl (content, p) ↦ (b, content, bytes_of-cases message b e, p, ground arith)
      | inr (x, p) ↦ absurd (ground arith)
    ]
  ]
