-- ===== src/Transports/Abstract.antt =====
-- fluxrpc/transports/__init__.py: `ServerTransport` as an interface, and a server that answers
-- through it.
use aiotinyrpc.Base.{
  Option-cases, inl, inr, ℕ, zero, suc, ◌≡◌, sym, Option, none, some, List, [], ◌∷◌, ◌++◌, arith,
}
use mathlib.Core.List.{append_assoc, append-nil}

abbrev pub Bytes : Type 0
Bytes = List ℕ

-- `receive_message` is `none` while no message comes. The context names where the message came
-- from, and `delivered` lists the replies with the place that each went to.
pub record ServerTransport : Type 1 where
  pub State : Type 0
  pub Context : Type 0
  pub Origin : Type 0
  pub origin : Context → Origin
  pub delivered : State → List (Origin × Bytes)
  pub receive_message : State → Option ((Context × Bytes) × State)
  pub send_reply : Context → Bytes → State → State
  pub delivered-receive_message :
      (s s' : State) (x : Context × Bytes)
      → receive_message s ≡ some (x, s')
      → delivered s' ≡ delivered s
  pub delivered-send_reply :
      (c : Context) (reply : Bytes) (s : State)
      → delivered (send_reply c reply s) ≡ delivered s ++ ((origin c, reply) ∷ [])

module _ (t : ServerTransport) (respond : Bytes → Bytes) where
  abbrev Received : Type 0
  Received = Option ((t.Context × Bytes) × t.State)

  -- At most `n` messages are received and answered: the messages with their origins, and the
  -- state after them.
  unfoldable pub serve : ℕ → t.State → List (t.Origin × Bytes) × t.State
  serve zero s = ([], s)
  serve (suc n) s = elim (t.receive_message s) [
    | none ↦ ([], s)
    | some ((c, m), s') ↦
        let rest = serve n (t.send_reply c (respond m) s') in ((t.origin c, m) ∷ rest.0, rest.1)
  ]

  abbrev pub answers : List (t.Origin × Bytes) → List (t.Origin × Bytes)
  answers [] = []
  answers ((o, m) ∷ ms) = (o, respond m) ∷ answers ms

  -- Each reply of the loop goes to the origin of the message that it answers, in the order in
  -- which the messages came.
  pub serve-delivered :
      (n : ℕ) (s : t.State) → t.delivered (serve n s).1 ≡ t.delivered s ++ answers (serve n s).0
  unfolding serve
  serve-delivered zero s = sym (append-nil (t.delivered s))
  serve-delivered (suc n) s = elim (Option-cases (t.receive_message s)) [
    | inl e ↦ ground (arith, append-nil (t.delivered s))
    | inr (((c, m), s'), e) ↦
        let after = t.send_reply c (respond m) s' in
        ground (
          arith,
          serve-delivered n after,
          t.delivered-receive_message s s' (c, m) e,
          t.delivered-send_reply c (respond m) s',
          append_assoc (t.delivered s) ((t.origin c, respond m) ∷ []) (answers (serve n after).0),
        )
  ]

  pub serve-message :
      (n : ℕ) (s s' : t.State) (c : t.Context) (m : Bytes)
      → t.receive_message s ≡ some ((c, m), s')
      → let rest = serve n (t.send_reply c (respond m) s') in
        serve (suc n) s ≡ ((t.origin c, m) ∷ rest.0, rest.1)
  unfolding serve
  serve-message n s s' c m h = ground arith
