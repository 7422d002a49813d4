-- ===== src/Transports/Wsgi/Runs.antt =====
-- fluxrpc/transports/wsgi.py, fluxrpc/transports/websocket.py: what handlers and the server do with
-- the shared queues in any order.
use aiotinyrpc.Base.{
  ℕ, zero, suc, ◌≡◌, ◌≤◌, refl, ◌==◌, ltb, Option, none, some, List, [], ◌∷◌, ◌++◌, if◌then◌else◌,
  arith, Option-cases, List-cases, inl, inr,
}
use aiotinyrpc.Transports.Abstract.{Bytes}
use aiotinyrpc.Transports.Wsgi.Mailbox.{
  Mailbox, empty, put_message, receive_message, send_reply, get_reply,
}
use mathlib.Core.List.{append_assoc, append-nil}

-- One step of a handler or of the server, in the order in which they happen.
pub data Event : Type 0 where
  posts : Bytes → Event
  receives : Event
  replies : ℕ → Bytes → Event
  answers : ℕ → Event

-- The queues with what went through them so far.
pub record History : Type 0 where
  pub mailbox : Mailbox
  pub posted : List (ℕ × Bytes)
  pub received : List (ℕ × Bytes)
  pub replied : List (ℕ × Bytes)
  pub answered : List (ℕ × Bytes)

abbrev pub begun : History
begun = record { mailbox = empty; posted = []; received = []; replied = []; answered = [] }

-- A step that blocks does not happen, nor does a reply to a context that nobody has made.
unfoldable pub step : Event → History → Option History
step (posts msg) h =
    let (c, s) = put_message msg h.mailbox in
    some (record h { mailbox = s; posted = h.posted ++ ((c, msg) ∷ []) })
step receives h = elim (receive_message h.mailbox) [
  | none ↦ none
  | some (x, s) ↦ some (record h { mailbox = s; received = h.received ++ (x ∷ []) })
]
step (replies c r) h =
    if ltb c h.mailbox.count
    then some
        (record h { mailbox = send_reply c r h.mailbox; replied = h.replied ++ ((c, r) ∷ []) })
    else none
step (answers c) h = elim (get_reply c h.mailbox) [
  | none ↦ none
  | some (r, s) ↦ some (record h { mailbox = s; answered = h.answered ++ ((c, r) ∷ []) })
]

unfoldable pub run : List Event → History → Option History
unfolding step
run [] h = some h
run (e ∷ es) h = elim (step e h) [ none ↦ none | some h' ↦ run es h' ]

-- The replies among those given that belong to one context, in their order.
abbrev pub replies_to : ℕ → List (ℕ × Bytes) → List Bytes
replies_to c [] = []
replies_to c ((d, r) ∷ rs) = let rest = replies_to c rs in if d == c then r ∷ rest else rest

replies_to-append :
    (c : ℕ) (rs : List (ℕ × Bytes)) (d : ℕ) (r : Bytes)
    → replies_to c (rs ++ ((d, r) ∷ []))
      ≡ (if d == c then replies_to c rs ++ (r ∷ []) else replies_to c rs)
replies_to-append c [] d r = ground arith
replies_to-append c ((e, q) ∷ rs) d r = ground (arith, replies_to-append c rs d r)

abbrev pub upto : ℕ → List ℕ
upto zero = []
upto (suc n) = upto n ++ (n ∷ [])

abbrev pub contexts_of : List (ℕ × Bytes) → List ℕ
contexts_of [] = []
contexts_of ((c, m) ∷ ms) = c ∷ contexts_of ms

contexts_of-append :
    (ms : List (ℕ × Bytes)) (c : ℕ) (m : Bytes)
    → contexts_of (ms ++ ((c, m) ∷ [])) ≡ contexts_of ms ++ (c ∷ [])
contexts_of-append [] c m = refl
contexts_of-append ((d, n) ∷ ms) c m = ground (arith, contexts_of-append ms c m)

-- Each message was put with a context of its own, the messages leave in the order in which they
-- were put, and the queue of a context holds its replies that no handler has taken yet.
pub record IsConsistent (h : History) : Type 0 where
  pub own_contexts : contexts_of h.posted ≡ upto h.mailbox.count
  pub in_order : h.posted ≡ h.received ++ h.mailbox.messages
  pub own_replies :
      (c : ℕ) → replies_to c h.replied ≡ replies_to c h.answered ++ h.mailbox.contexts c
  pub no_replies : (c : ℕ) → h.mailbox.count ≤ c → replies_to c h.replied ≡ []

append-eq-nil : (xs ys : List Bytes) → xs ++ ys ≡ [] → xs ≡ []
append-eq-nil [] ys h = refl
append-eq-nil (x ∷ xs) ys h = cc

module _ (h : History) (i : IsConsistent h) where
  posts-IsConsistent : (msg : Bytes) (h' : History) → step (posts msg) h ≡ some h' → IsConsistent h'
  unfolding step put_message
  posts-IsConsistent msg h' stepped =
      let c = h.mailbox.count in
      record {
        own_contexts = ground (arith, i.own_contexts, contexts_of-append h.posted c msg);
        in_order =
            ground (arith, i.in_order, append_assoc h.received h.mailbox.messages ((c, msg) ∷ []));
        own_replies = λ d. ground (
          arith,
          i.own_replies d,
          i.no_replies d,
          append-eq-nil (replies_to d h.answered) (h.mailbox.contexts d),
          append-nil (replies_to d h.answered),
        );
        no_replies = λ d le. ground (arith, i.no_replies d);
      }

  receives-IsConsistent : (h' : History) → step receives h ≡ some h' → IsConsistent h'
  unfolding step receive_message
  receives-IsConsistent h' stepped = elim (List-cases h.mailbox.messages) [
    | inl e ↦ absurd (ground arith)
    | inr (x, xs, e) ↦ record {
      own_contexts = ground (arith, i.own_contexts);
      in_order = ground (arith, i.in_order, append_assoc h.received (x ∷ []) xs);
      own_replies = λ d. ground (arith, i.own_replies d);
      no_replies = λ d le. ground (arith, i.no_replies d);
    }
  ]

  replies-IsConsistent :
      (c : ℕ) (r : Bytes) (h' : History) → step (replies c r) h ≡ some h' → IsConsistent h'
  unfolding step send_reply
  replies-IsConsistent c r h' stepped = record {
    own_contexts = ground (arith, i.own_contexts);
    in_order = ground (arith, i.in_order);
    own_replies = λ d. ground (
      arith,
      i.own_replies d,
      replies_to-append d h.replied c r,
      append_assoc (replies_to d h.answered) (h.mailbox.contexts d) (r ∷ []),
    );
    no_replies = λ d le. ground (arith, i.no_replies d, replies_to-append d h.replied c r);
  }

  answers-IsConsistent : (c : ℕ) (h' : History) → step (answers c) h ≡ some h' → IsConsistent h'
  unfolding step get_reply
  answers-IsConsistent c h' stepped = elim (List-cases (h.mailbox.contexts c)) [
    | inl e ↦ absurd (ground arith)
    | inr (x, xs, e) ↦ record {
      own_contexts = ground (arith, i.own_contexts);
      in_order = ground (arith, i.in_order);
      own_replies = λ d. ground (
        arith,
        i.own_replies d,
        replies_to-append d h.answered c x,
        append_assoc (replies_to d h.answered) (x ∷ []) xs,
      );
      no_replies = λ d le. ground (arith, i.no_replies d);
    }
  ]

step-IsConsistent :
    (e : Event) (h h' : History) → step e h ≡ some h' → IsConsistent h → IsConsistent h'
step-IsConsistent (posts msg) h h' stepped i = posts-IsConsistent h i msg h' stepped
step-IsConsistent receives h h' stepped i = receives-IsConsistent h i h' stepped
step-IsConsistent (replies c r) h h' stepped i = replies-IsConsistent h i c r h' stepped
step-IsConsistent (answers c) h h' stepped i = answers-IsConsistent h i c h' stepped

-- Whatever the handlers and the server do with the queues, and in whatever order, they stay
-- consistent.
pub run-IsConsistent :
    (es : List Event) (h h' : History) → IsConsistent h → run es h ≡ some h' → IsConsistent h'
unfolding run
run-IsConsistent [] h h' i ran = ground arith
run-IsConsistent (e ∷ es) h h' i ran = elim (Option-cases (step e h)) [
  | inl stuck ↦ absurd (ground arith)
  | inr (next, stepped) ↦
      run-IsConsistent es next h' (step-IsConsistent e h next stepped i) (ground arith)
]

empty-IsConsistent : IsConsistent begun
unfolding empty
empty-IsConsistent = record {
  own_contexts = refl;
  in_order = refl;
  own_replies = λ c. refl;
  no_replies = λ c le. refl;
}

-- The same of every run that begins with empty queues.
pub begun-IsConsistent : (es : List Event) (h : History) → run es begun ≡ some h → IsConsistent h
begun-IsConsistent es h ran = run-IsConsistent es begun h empty-IsConsistent ran
