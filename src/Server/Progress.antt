-- ===== src/Server/Progress.antt =====
-- `handle_message` and `parse_request` over all messages, with `bson` as the decoder.
use aiotinyrpc.Base.{◌≡◌, ◌≢◌, ◌⊎◌, inl, inr, refl, ap, ◌∙◌, Option, none, some, List, arith}
use aiotinyrpc.Python.Value.{Fields, null, int, str, dict, get}
use aiotinyrpc.Python.Exc.{Result-cases, Exc, ok, err, catches}
use aiotinyrpc.Jsonrpc.{
  Request, error_respond, fixed_error, Response, Item, failure, response_to_dict,
}
use aiotinyrpc.Jsonrpc.Parse.{parse_dict, parse_request, parse_subrequest, single, batch}
use aiotinyrpc.Dispatch.{dispatch_request}
use aiotinyrpc.Server.{
  Server, IsBson, handle_message, dispatch, answer_parsed, one, jsonrpc_ops, jsonrpc_caller,
}
use aiotinyrpc.Server.Answers.{parse_request-single}
use aiotinyrpc.Server.Failures.{
  invalid_response, params_response, parse_dict-refuses, parse_request-garbled,
  parse_request-refused,
}
use aiotinyrpc.Python.Int.{negsuc}

module _ {Wire : Type 0} (s : Server Wire) where
  -- Why a handler can raise before it sends: the message is a document without a method, or the
  -- encoder raises on the response to the message.
  abbrev pub Unanswered : Wire → Exc → Type 0
  Unanswered w e =
      ((d : Fields) × (s.codec.decode w ≡ ok (dict d)) × (get d "method" ≡ none))
      ⊎ ((r : Response) × (answer_parsed s (parse_request s.codec.decode w) ≡ ok (one (some r)))
          × (s.codec.encode (dict (response_to_dict s.render r)) ≡ err e))

  -- With `bson` as the decoder no message is ever parsed as a batch.
  pub parse_request-not_batch :
      IsBson s.codec
      → (w : Wire) (items : List Item) → parse_request s.codec.decode w ≢ ok (batch items)
  unfolding parse_request parse_subrequest
  parse_request-not_batch b w items h = elim (Result-cases (s.codec.decode w)) [
    | inl (v, decoded) ↦ ground (arith, (b.decodes_documents w v decoded).1)
    | inr (x, garbled) ↦ ground arith
  ]

  -- What `parse_request` gives, where `bson` is the decoder: a single request, an exception that is
  -- answered, or the one for a missing method.
  abbrev Parses : Wire → Type 0
  Parses w =
      ((q : Request) × (parse_request s.codec.decode w ≡ ok (single q)))
      ⊎ ((r : Response) × (answer_parsed s (parse_request s.codec.decode w) ≡ ok (one (some r))))
      ⊎ ((d : Fields) × (s.codec.decode w ≡ ok (dict d)) × (get d "method" ≡ none))

  document-Parses : (w : Wire) (d : Fields) → s.codec.decode w ≡ ok (dict d) → Parses w
  unfolding catches error_respond fixed_error
  document-Parses w d decoded = elim (Result-cases (parse_dict d)) [
    | inl (q, parsed) ↦ inl (q, parse_request-single s.codec.decode w d q decoded parsed)
    | inr (x, refused) ↦
        let raised = parse_request-refused s.codec.decode w d x decoded refused in
        elim (parse_dict-refuses d x refused) [
          | inl a ↦ inr (inl (invalid_response d, rw (raised, a) refl))
          | inr (inl a) ↦ inr (inl (params_response d, rw (raised, a) refl))
          | inr (inr (a, missing)) ↦ inr (inr (d, decoded, missing))
        ]
  ]

  all-Parses : IsBson s.codec → (w : Wire) → Parses w
  unfolding catches error_respond fixed_error
  all-Parses b w = elim (Result-cases (s.codec.decode w)) [
    | inl (v, decoded) ↦
        let (d, is_dict) = b.decodes_documents w v decoded in
        document-Parses w d (decoded ∙ ap (λ x. ok x) is_dict)
    | inr (x, garbled) ↦ inr (
        inl (
          failure null (str "Parse error") (int (negsuc 32699)) none,
          rw (parse_request-garbled s.codec.decode w x garbled) refl,
        ))
  ]

  -- The reply to an answer that is one response or none.
  reply_with-raises :
      (w : Wire) (o : Option Response) (e : Exc)
      → answer_parsed s (parse_request s.codec.decode w) ≡ ok (one o)
      → handle_message s w ≡ err e
      → Unanswered w e
  unfolding handle_message
  reply_with-raises w none e g h = absurd (ground arith)
  reply_with-raises w (some r) e g h =
      elim (Result-cases (s.codec.encode (dict (response_to_dict s.render r)))) [
        | inl (v, a) ↦ absurd (ground arith)
        | inr (x, a) ↦ inr (r, g, ground arith)
      ]

  -- With `bson` as the decoder the handler raises, before it sends, only on a document without a
  -- method, or when the response to the message, which the parser's error or the dispatcher makes,
  -- cannot be encoded.
  pub handle_message-raises :
      IsBson s.codec → (w : Wire) (e : Exc) → handle_message s w ≡ err e → Unanswered w e
  unfolding dispatch
  handle_message-raises b w e h = elim (all-Parses b w) [
    | inl (q, parsed) ↦
        reply_with-raises w
          (dispatch_request (jsonrpc_ops s.render) s.validator jsonrpc_caller s.dispatcher q) e
          (rw parsed refl) h
    | inr (inl (r, answered)) ↦ reply_with-raises w (some r) e answered h
    | inr (inr missing) ↦ inl missing
  ]
