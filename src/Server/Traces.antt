-- ===== src/Server/Traces.antt =====
-- fluxrpc/server/__init__.py: the lists of tasks and the traces of `serve_forever`.
use aiotinyrpc.Base.{
  ℕ, zero, suc, ◌≡◌, refl, subst, Bool, true, false, some, List, [], ◌∷◌, ◌++◌, arith,
  if◌then◌else◌, Option-cases, inl, inr,
}
use aiotinyrpc.Server.Loop.{Direction, incoming, outgoing, Packet, Event, handles, take_task}
use mathlib.Core.List.{Perm}
use mathlib.Core.List.Perm

abbrev pub is_incoming : Direction → Bool
is_incoming incoming = true
is_incoming outgoing = false

module _ {Context Wire : Type 0} where
  pub take_task-Perm :
      (n : ℕ) (ps qs : List (Packet Context Wire)) (p : Packet Context Wire)
      → take_task n ps ≡ some (p, qs)
      → Perm ps (p ∷ qs)
  unfolding take_task
  take_task-Perm n [] qs p h = absurd (ground arith)
  take_task-Perm zero (q ∷ ps) qs p h =
      let same : q ∷ ps ≡ p ∷ qs = ground arith in subst (Perm (q ∷ ps)) same (Perm.refl (q ∷ ps))
  take_task-Perm (suc n) (q ∷ ps) qs p h = elim (Option-cases (take_task n ps)) [
    | inl e ↦ absurd (ground arith)
    | inr ((p', qs'), e) ↦
        let same : p' ∷ q ∷ qs' ≡ p ∷ qs = ground arith in
        subst (Perm (q ∷ ps)) same
          (Perm.trans (Perm.cons q (take_task-Perm n ps qs' p' e)) (Perm.swap p' q qs'))
  ]

  -- The tasks run in the order in which they were started.
  abbrev pub in_order : List (Packet Context Wire) → List (Event Context Wire)
  in_order [] = []
  in_order (p ∷ ps) = handles 0 ∷ in_order ps

  abbrev pub heard : List (Packet Context Wire) → List (Context × Wire)
  heard [] = []
  heard (p ∷ ps) = (p.context, p.message) ∷ heard ps

  -- The incoming part of a trace, or the other one.
  abbrev pub told : Bool → List (Direction × (Context × Wire)) → List (Context × Wire)
  told way [] = []
  told way ((d, x) ∷ ts) =
      let rest = told way ts in
      if is_incoming d then (if way then x ∷ rest else rest) else (if way then rest else x ∷ rest)

  pub told-append :
      (way : Bool) (ts : List (Direction × (Context × Wire))) (d : Direction) (x : Context × Wire)
      → told way (ts ++ ((d, x) ∷ [])) ≡ told way ts ++ told way ((d, x) ∷ [])
  told-append way [] d x = ground arith
  told-append way ((e, y) ∷ ts) d x = ground (arith, told-append way ts d x)

  pub heard-append :
      (ps : List (Packet Context Wire)) (p : Packet Context Wire)
      → heard (ps ++ (p ∷ [])) ≡ heard ps ++ ((p.context, p.message) ∷ [])
  heard-append [] p = refl
  heard-append (q ∷ ps) p = ground (arith, heard-append ps p)
