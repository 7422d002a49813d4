-- ===== src/Transports/Wsgi/Handle.antt =====
-- fluxrpc/transports/wsgi.py: `WsgiServerTransport.handle`, up to the wait for its reply and after
-- it, and fluxrpc/transports/websocket.py: `WSApplication.on_message` in the same two parts.
-- The package `werkzeug` is a parameter: a request is its method and what its stream reads under a
-- limit, where an exception ends `handle`; a response is what `Response` is called with.
use aiotinyrpc.Base.{
  ℕ, ◌≡◌, ◌≢◌, str_eq_iff, refl, String, str_eq, Option, none, some, List, [], ◌∷◌, ◌++◌, arith,
  if◌then◌else◌, Option-cases, inl, inr,
}
use aiotinyrpc.Base.Dict.{Dict, merge, insert}
use aiotinyrpc.Python.Exc.{Exc, Result, ok, err}
use aiotinyrpc.Transports.Abstract.{Bytes, ServerTransport, serve}
use aiotinyrpc.Transports.Wsgi.Mailbox.{
  Mailbox, put_message, receive_message, send_reply, get_reply,
}

pub record Request : Type 0 where
  pub method : String
  pub read : ℕ → Result Bytes

pub data Body : Type 0 where
  no_body : Body
  text : String → Body
  bytes : Bytes → Body

pub record Response : Type 0 where
  pub body : Body
  pub status : Option ℕ
  pub headers : Dict String

-- `WsgiServerTransport` without its queues
pub record Wsgi : Type 0 where
  pub max_content_length : ℕ
  pub allow_origin : String

-- The defaults of `__init__`
abbrev pub default_wsgi : Wsgi
default_wsgi = record { max_content_length = 4096; allow_origin = "*" }

unfoldable pub access_control_headers : Wsgi → Dict String
access_control_headers w =
    ("Access-Control-Allow-Methods", "POST")
    ∷ ("Access-Control-Allow-Origin", w.allow_origin)
    ∷ ("Access-Control-Allow-Headers", "Content-Type, X-Requested-With, Accept, Origin")
    ∷ []

abbrev post_headers : Dict String
post_headers = ("Content-Type", "application/json") ∷ []

-- What `handle` does first: it responds, or puts a message and waits for a reply to its context.
pub data Handling : Type 0 where
  responds : Response → Handling
  waits_for : ℕ → Handling
  raises : Exc → Handling

abbrev posted : Result Bytes → Mailbox → Handling × Mailbox
posted (err e) s = (raises e, s)
posted (ok msg) s = let (c, s') = put_message msg s in (waits_for c, s')

unfoldable pub handle : Wsgi → Request → Mailbox → Handling × Mailbox
unfolding access_control_headers put_message
handle w q s =
    if str_eq q.method "OPTIONS"
    then (
      responds (record { body = no_body; status = none; headers = access_control_headers w }),
      s,
    )
    else if str_eq q.method "POST"
    then posted (q.read w.max_content_length) s
    else (
      responds (record { body = text "Only POST supported"; status = some 405; headers = [] }),
      s,
    )

-- What `handle` does when there is a reply. `none` is the wait for one.
unfoldable pub handle_reply : Wsgi → ℕ → Mailbox → Option (Response × Mailbox)
unfolding access_control_headers get_reply merge
handle_reply w c s = elim (get_reply c s) [
  | none ↦ none
  | some (reply, s') ↦ some (
    record {
      body = bytes reply;
      status = none;
      headers = merge (access_control_headers w) post_headers;
    },
    s',
  )
]

-- `on_message`, up to its wait, and what it sends when there is a reply.
unfoldable pub on_message : Bytes → Mailbox → ℕ × Mailbox
unfolding put_message
on_message msg s = put_message msg s

unfoldable pub on_message_reply : ℕ → Mailbox → Option (Bytes × Mailbox)
unfolding get_reply
on_message_reply c s = get_reply c s

-- The transport behind the interface of all transports, with the replies that were sent.
pub record Replying : Type 0 where
  pub mailbox : Mailbox
  pub replied : List (ℕ × Bytes)

abbrev pub received :
    Option ((ℕ × Bytes) × Mailbox) → List (ℕ × Bytes) → Option ((ℕ × Bytes) × Replying)
received none rs = none
received (some (x, s)) rs = some (x, record { mailbox = s; replied = rs })

pub received-replied :
    (s s' : Replying) (x : ℕ × Bytes)
    → received (receive_message s.mailbox) s.replied ≡ some (x, s')
    → s'.replied ≡ s.replied
received-replied s s' x h = elim (Option-cases (receive_message s.mailbox)) [
  | inl e ↦ absurd (ground arith)
  | inr (y, e) ↦ ground arith
]

abbrev pub server_transport : ServerTransport
server_transport = record {
  State = Replying;
  Context = ℕ;
  Origin = ℕ;
  origin = λ c. c;
  delivered = λ s. s.replied;
  receive_message = λ s. received (receive_message s.mailbox) s.replied;
  send_reply = λ c reply s. record {
    mailbox = send_reply c reply s.mailbox;
    replied = s.replied ++ ((c, reply) ∷ []);
  };
  delivered-receive_message = λ s s' x h. received-replied s s' x h;
  delivered-send_reply = λ c reply s. refl;
}

abbrev pub response_of : Option (Response × Mailbox) → Option Response
response_of none = none
response_of (some (r, s)) = some r

module _ (w : Wsgi) (q : Request) (s : Mailbox) where
  handle-post :
      (msg : Bytes)
      → q.method ≡ "POST"
      → q.read w.max_content_length ≡ ok msg
      → handle w q s ≡ (waits_for s.count, (put_message msg s).1)
  unfolding handle put_message
  handle-post msg post readable = rw (post, readable) refl

  handle_reply-empty :
      (msg : Bytes) → response_of (handle_reply w s.count (put_message msg s).1) ≡ none
  unfolding handle_reply put_message get_reply
  handle_reply-empty msg = ground arith

  module _ (respond : Bytes → Bytes) (msg : Bytes) where
    abbrev served : Mailbox → Mailbox
    served s' = (serve server_transport respond 1 (record { mailbox = s'; replied = [] })).1.mailbox

    handle_reply-served :
        s.messages ≡ []
        → response_of (handle_reply w s.count (served (put_message msg s).1))
          ≡ some (record {
            body = bytes (respond msg);
            status = none;
            headers = access_control_headers w ++ (("Content-Type", "application/json") ∷ []);
          })
    unfolding handle_reply put_message receive_message get_reply send_reply serve merge insert
        access_control_headers
    handle_reply-served idle = rw idle (ground arith)

    -- A POST that can be read, with no message before it, is answered by the server's next reply,
    -- as JSON and open to the allowed origin. Until then it waits.
    pub handle-serve :
        q.method ≡ "POST"
        → q.read w.max_content_length ≡ ok msg
        → s.messages ≡ []
        → let s' = (handle w q s).1 in
          let start : Replying = record { mailbox = s'; replied = [] } in
          let served = serve server_transport respond 1 start in
          ((handle w q s).0 ≡ waits_for s.count)
          × (response_of (handle_reply w s.count s') ≡ none)
          × (response_of (handle_reply w s.count served.1.mailbox)
              ≡ some (record {
                body = bytes (respond msg);
                status = none;
                headers = access_control_headers w ++ (("Content-Type", "application/json") ∷ []);
              }))
    handle-serve post readable idle =
        rw (handle-post msg post readable) (refl, handle_reply-empty msg, handle_reply-served idle)

  -- Any other method is refused or answered at once, and no message is put.
  pub handle-other :
      q.method ≢ "POST" → ((handle w q s).1 ≡ s) × ((c : ℕ) → (handle w q s).0 ≢ waits_for c)
  unfolding handle
  handle-other other = (
    ground (arith, str_eq_iff q.method "POST"),
    λ c h. ground (arith, str_eq_iff q.method "POST"),
  )
