-- ===== src/Jsonrpc/Pending.antt =====
-- The list of pending replies of `JSONRPCProtocol` over a run of the client.
use aiotinyrpc.Base.{
  ℕ, suc, ◌+◌, String, ◌≡◌, refl, Bool, true, false, Option, List, [], ◌∷◌, length, length-append,
  arith,
}
use aiotinyrpc.Python.Value.{Value, Values, Fields, dict}
use aiotinyrpc.Python.Exc.{Result, ok, err, raised_text, unexpected_id_error}
use aiotinyrpc.Jsonrpc.{Request, Response}
use aiotinyrpc.Jsonrpc.Protocol.{
  Protocol, new_protocol, create_request, contains, remove, parse_subreply, settle, read_reply,
}

-- What the client does with its protocol: it creates a request, or reads one reply.
pub data Event : Type 0 where
  creates : String → Option Values → Option Fields → Bool → Event
  reads : Value → Event

-- The protocol with the numbers of ids issued and of replies accepted.
pub record Account : Type 0 where
  pub protocol : Protocol
  pub issued : ℕ
  pub accepted : ℕ

abbrev count_issued : Account → Result Request × Protocol → Account
count_issued a (err e, p) = record a { protocol = p }
count_issued a (ok r, p) = record a {
  protocol = p;
  issued = elim r.one_way [ true ↦ a.issued | false ↦ suc a.issued ];
}

abbrev count_accepted : Account → Result Response × Protocol → Account
count_accepted a (err e, p) = record a { protocol = p }
count_accepted a (ok r, p) = record a { protocol = p; accepted = suc a.accepted }

unfoldable pub step : Account → Event → Account
unfolding create_request parse_subreply
step a (creates m args kwargs one_way) =
    count_issued a (create_request a.protocol m args kwargs one_way)
step a (reads v) = count_accepted a (parse_subreply a.protocol v)

unfoldable pub run : Account → List Event → Account
unfolding step
run a [] = a
run a (e ∷ es) = run (step a e) es

abbrev pub opened : (ℕ → Value) → Account
opened g = record { protocol = new_protocol g; issued = 0; accepted = 0 }

-- What every step keeps: the ids drawn are those issued, and each is pending or was answered.
pub record IsBalanced (a : Account) : Type 0 where
  pub drawn : a.protocol.drawn ≡ a.issued
  pub balance : length a.protocol.pending + a.accepted ≡ a.issued

length-remove :
    (v : Value) (vs : List Value) → contains v vs ≡ true → suc (length (remove v vs)) ≡ length vs
unfolding contains remove
length-remove v [] h = cc
length-remove v (w ∷ ws) h = ground (arith, length-remove v ws)

settle-IsBalanced :
    (a : Account) (r : Result (Value × Response))
    → IsBalanced a
    → IsBalanced (count_accepted a (settle a.protocol r))
unfolding settle
settle-IsBalanced a (err e) h = record { drawn = h.drawn; balance = h.balance }
settle-IsBalanced a (ok (i, r)) h = ground (arith, length-remove i a.protocol.pending)

step-IsBalanced : (a : Account) (e : Event) → IsBalanced a → IsBalanced (step a e)
unfolding step
step-IsBalanced a (creates m args kwargs one_way) h =
    ground (arith, length-append a.protocol.pending (a.protocol.generator a.protocol.drawn ∷ []))
step-IsBalanced a (reads (dict d)) h = settle-IsBalanced a (read_reply d) h
step-IsBalanced a (reads _) h = record { drawn = h.drawn; balance = h.balance }

run_from : (a : Account) (es : List Event) → IsBalanced a → IsBalanced (run a es)
unfolding run
run_from a [] h = h
run_from a (e ∷ es) h = run_from (step a e) es (step-IsBalanced a e h)

-- After any events on a new protocol, the pending replies and the accepted ones add up to the
-- ids issued, and as many ids have been drawn from the generator.
pub run-IsBalanced : (g : ℕ → Value) (es : List Event) → IsBalanced (run (opened g) es)
run-IsBalanced g es = run_from (opened g) es (record { drawn = refl; balance = refl })

-- A reply whose id is not pending is refused and leaves the protocol as it was, whatever else it
-- holds.
pub parse_subreply_unknown :
    (p : Protocol) (d : Fields) (i : Value) (r : Response)
    → read_reply d ≡ ok (i, r)
    → contains i p.pending ≡ false
    → parse_subreply p (dict d) ≡ (
      err (raised_text unexpected_id_error "Reply id does not correspond to any sent requests."),
      p,
    )
unfolding parse_subreply
parse_subreply_unknown p d i r h n = ground arith
