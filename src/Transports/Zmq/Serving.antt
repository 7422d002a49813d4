-- ===== src/Transports/Zmq/Serving.antt =====
-- fluxrpc/transports/zmq.py: the loop of a server on `ZmqServerTransport`.
use aiotinyrpc.Base.{◌≡◌, refl, sym, ap, ◌∙◌, some, List, [], ◌∷◌, ◌++◌, arith, length, subst}
use aiotinyrpc.Transports.Abstract.{Bytes, serve, answers, serve-message}
use aiotinyrpc.Transports.Zmq.Server.{
  Router, split_last-append, receive_message, send_reply, server_transport,
}
use mathlib.Core.List.{append_assoc, append-nil}

-- The multipart messages with the given frames in front and the given last part.
abbrev pub multiparts : List (List Bytes × Bytes) → List (List Bytes)
multiparts [] = []
multiparts ((context, m) ∷ ms) = (context ++ (m ∷ [])) ∷ multiparts ms

receive_message-multiparts :
    (context : List Bytes) (m : Bytes) (msgs : List (List Bytes)) (s : Router)
    → s.incoming ≡ (context ++ (m ∷ [])) ∷ msgs
    → receive_message s ≡ some ((context, m), record s { incoming = msgs })
unfolding receive_message
receive_message-multiparts context m msgs s h = ground (arith, split_last-append context m)

module _ (respond : Bytes → Bytes) where
  abbrev respond_all : List (List Bytes × Bytes) → List (List Bytes × Bytes)
  respond_all ms = answers server_transport respond ms

  -- Every message that the socket holds is answered, in the order in which they came, and each
  -- reply has the frames of its message in front.
  pub serve-multiparts :
      (ms : List (List Bytes × Bytes)) (s : Router)
      → s.incoming ≡ multiparts ms
      → let r = serve server_transport respond (length ms) s in
        (r.0 ≡ ms)
        × (r.1.incoming ≡ [])
        × (r.1.sent ≡ s.sent ++ multiparts (answers server_transport respond ms))
  unfolding serve send_reply
  serve-multiparts [] s h = (refl, h, sym (append-nil s.sent))
  serve-multiparts ((context, m) ∷ ms) s h =
      let left = record s { incoming = multiparts ms } in
      let (hr, hi, hs) = serve-multiparts ms (send_reply context (respond m) left) refl in
      let e =
        serve-message server_transport respond (length ms) s left context m
          (receive_message-multiparts context m (multiparts ms) s h) in
      subst
        (λ r.
          (r.0 ≡ (context, m) ∷ ms)
          × (r.1.incoming ≡ [])
          × (r.1.sent ≡ s.sent ++ multiparts (respond_all ((context, m) ∷ ms))))
        (sym e)
        (
          ap (λ rs. (context, m) ∷ rs) hr,
          hi,
          hs
              ∙ append_assoc s.sent ((context ++ (respond m ∷ [])) ∷ [])
                  (multiparts (respond_all ms)),
        )
