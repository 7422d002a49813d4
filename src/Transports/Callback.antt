-- ===== src/Transports/Callback.antt =====
-- fluxrpc/transports/callback.py: `CallbackServerTransport`. Its two callbacks are parameters, over
-- a state of the program that gives them, with what has been written there.
use aiotinyrpc.Base.{
  ◌≡◌, refl, Option, none, some, List, [], ◌∷◌, ◌++◌, arith, Option-cases, inl, inr,
}
use aiotinyrpc.Transports.Abstract.{Bytes, ServerTransport}

-- `reader` and `writer`, and that a call of `writer` is a write and one of `reader` is none.
pub record Callbacks : Type 1 where
  pub State : Type 0
  pub reader : State → Option (Bytes × State)
  pub writer : Bytes → State → State
  pub written : State → List Bytes
  pub written-reader : (s s' : State) (m : Bytes) → reader s ≡ some (m, s') → written s' ≡ written s
  pub written-writer : (r : Bytes) (s : State) → written (writer r s) ≡ written s ++ (r ∷ [])

module _ (c : Callbacks) where
  -- `receive_message`, whose context is `None`
  unfoldable pub receive_message : c.State → Option ((Unit {0} × Bytes) × c.State)
  receive_message s = elim (c.reader s) [ none ↦ none | some (m, s') ↦ some ((tt, m), s') ]

  -- `send_reply`
  unfoldable pub send_reply : Unit {0} → Bytes → c.State → c.State
  send_reply context reply s = c.writer reply s

  abbrev pub addressed : List Bytes → List (Unit {0} × Bytes)
  addressed [] = []
  addressed (r ∷ rs) = (tt, r) ∷ addressed rs

  addressed-append :
      (rs : List Bytes) (r : Bytes) → addressed (rs ++ (r ∷ [])) ≡ addressed rs ++ ((tt, r) ∷ [])
  addressed-append [] r = refl
  addressed-append (q ∷ rs) r = ground (arith, addressed-append rs r)

  pub written-receive_message :
      (s s' : c.State) (x : Unit {0} × Bytes)
      → receive_message s ≡ some (x, s')
      → addressed (c.written s') ≡ addressed (c.written s)
  unfolding receive_message
  written-receive_message s s' x h = elim (Option-cases (c.reader s)) [
    | inl e ↦ absurd (ground arith)
    | inr ((m, after), e) ↦ ground (arith, c.written-reader s after m e)
  ]

  pub written-send_reply :
      (context : Unit {0}) (reply : Bytes) (s : c.State)
      → addressed (c.written (send_reply context reply s))
        ≡ addressed (c.written s) ++ ((tt, reply) ∷ [])
  unfolding send_reply
  written-send_reply context reply s =
      ground (arith, c.written-writer reply s, addressed-append (c.written s) reply)

  -- The transport behind the interface of all transports: every reply goes to the one writer.
  abbrev pub server_transport : ServerTransport
  server_transport = record {
    State = c.State;
    Context = Unit {0};
    Origin = Unit {0};
    origin = λ context. tt;
    delivered = λ s. addressed (c.written s);
    receive_message = λ s. receive_message s;
    send_reply = λ context reply s. send_reply context reply s;
    delivered-receive_message = λ s s' x h. written-receive_message s s' x h;
    delivered-send_reply = λ context reply s. written-send_reply context reply s;
  }
