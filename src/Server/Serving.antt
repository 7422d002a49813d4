-- ===== src/Server/Serving.antt =====
-- fluxrpc/server/__init__.py: what holds of every run of `serve_forever`.
use aiotinyrpc.Base.{
  ℕ, ◌≡◌, refl, sym, ap, ◌∙◌, subst, Bool, true, false, Option, none, some, List, [], ◌∷◌, ◌++◌,
  arith, if◌then◌else◌, Option-cases, inl, inr,
}
use aiotinyrpc.Python.Exc.{Result, ok, err, Result-cases}
use aiotinyrpc.Server.{Server, handle_message}
use aiotinyrpc.Server.Loop.{
  incoming, outgoing, Packet, Loop, Event, receives, handles, started, receive_one_message,
  take_task, reply_to, run_task, step, serve, send_reply,
}
use mathlib.Core.List.{append_assoc, append-nil, Perm}
use mathlib.Core.List.Perm
use aiotinyrpc.Server.Traces.{take_task-Perm, in_order, heard, told, told-append, heard-append}

module _ {Context Wire : Type 0} (s : Server Wire) where
  -- What goes out for a message by what its handling comes to, under the message's own context and
  -- channel.
  abbrev pub written : Packet Context Wire → Result (Option Wire) → List (Packet Context Wire)
  written p (ok (some w)) = record { context = p.context; channel = p.channel; message = w } ∷ []
  written p (ok none) = []
  written p (err e) = []

  abbrev pub replies : List (Packet Context Wire) → List (Packet Context Wire)
  replies [] = []
  replies (p ∷ ps) = written p (handle_message s p.message) ++ replies ps

  abbrev pub if_any : Option (Packet Context Wire) → List (Packet Context Wire)
  if_any none = []
  if_any (some r) = r ∷ []

  reply_to-written :
      (p : Packet Context Wire) → if_any (reply_to s p) ≡ written p (handle_message s p.message)
  unfolding reply_to
  reply_to-written p = elim (Result-cases (handle_message s p.message)) [
    | inl (o, e) ↦ elim (Option-cases o) [ inl n ↦ ground arith | inr (w, g) ↦ ground arith ]
    | inr (x, e) ↦ ground arith
  ]

  -- Every message that came in has been handled once or is still to be; the replies that were sent
  -- are those to the handled ones, in the order in which they were handled, each with the context
  -- and the channel of its message; and a trace has all that came in and all that was sent.
  pub record IsServed (l : Loop Context Wire) : Type 0 where
    pub once : Perm l.received (l.handled ++ l.tasks)
    pub answered : l.sent ≡ replies l.handled
    pub traced_in : told true l.traced ≡ (if l.trace then heard l.received else [])
    pub traced_out : told false l.traced ≡ (if l.trace then heard l.sent else [])

  replies-append :
      (ps : List (Packet Context Wire)) (p : Packet Context Wire)
      → replies (ps ++ (p ∷ [])) ≡ replies ps ++ if_any (reply_to s p)
  replies-append [] p =
      append-nil (written p (handle_message s p.message)) ∙ sym (reply_to-written p)
  replies-append (q ∷ ps) p =
      ap (λ rs. written q (handle_message s q.message) ++ rs) (replies-append ps p)
      ∙ sym (
          append_assoc (written q (handle_message s q.message)) (replies ps)
            (if_any (reply_to s p)))

  receive_one_message-IsServed :
      (p : Packet Context Wire) (l : Loop Context Wire)
      → IsServed l
      → IsServed (receive_one_message p l)
  unfolding receive_one_message
  receive_one_message-IsServed p l i = record {
    once =
        subst (Perm (l.received ++ (p ∷ []))) (append_assoc l.handled l.tasks (p ∷ []))
          (Perm.append_right (p ∷ []) i.once);
    answered = i.answered;
    traced_in = ground (
      arith,
      i.traced_in,
      heard-append l.received p,
      told-append true l.traced incoming (p.context, p.message),
    );
    traced_out = ground (
      arith,
      i.traced_out,
      append-nil (told false l.traced),
      told-append false l.traced incoming (p.context, p.message),
    );
  }

  run_task-IsServed :
      (n : ℕ) (l l' : Loop Context Wire) → run_task s n l ≡ some l' → IsServed l → IsServed l'
  unfolding run_task
  run_task-IsServed n l l' ran i = elim (Option-cases (take_task n l.tasks)) [
    | inl e ↦ absurd (ground arith)
    | inr ((p, ps), e) ↦
        let perm : Perm l.received ((l.handled ++ (p ∷ [])) ++ ps) =
          subst (Perm l.received) (sym (append_assoc l.handled (p ∷ []) ps))
            (Perm.trans i.once (Perm.append_left l.handled (take_task-Perm n l.tasks ps p e))) in
        let received : l.received ≡ l'.received = ground (arith, Option-cases (reply_to s p)) in
        elim (Option-cases (reply_to s p)) [
          | inl quiet ↦ record {
            once =
                subst (λ x. Perm x (l'.handled ++ l'.tasks)) received
                  (subst (Perm l.received) (ground arith) perm);
            answered = ground (arith, i.answered, replies-append l.handled p, append-nil l.sent);
            traced_in = ground (arith, i.traced_in);
            traced_out = ground (arith, i.traced_out);
          }
          | inr (r, spoken) ↦ record {
            once =
                subst (λ x. Perm x (l'.handled ++ l'.tasks)) received
                  (subst (Perm l.received) (ground arith) perm);
            answered = ground (arith, i.answered, replies-append l.handled p);
            traced_in = ground (
              arith,
              i.traced_in,
              append-nil (told true l.traced),
              told-append true l.traced outgoing (r.context, r.message),
            );
            traced_out = ground (
              arith,
              i.traced_out,
              heard-append l.sent r,
              told-append false l.traced outgoing (r.context, r.message),
            );
          }
        ]
  ]

  step-IsServed :
      (e : Event Context Wire) (l l' : Loop Context Wire)
      → step s e l ≡ some l'
      → IsServed l
      → IsServed l'
  unfolding step
  step-IsServed (receives p) l l' stepped i =
      let same : receive_one_message p l ≡ l' = ground arith in
      subst IsServed same (receive_one_message-IsServed p l i)
  step-IsServed (handles n) l l' stepped i = run_task-IsServed n l l' stepped i

  serve_from-IsServed :
      (es : List (Event Context Wire)) (l l' : Loop Context Wire)
      → serve s es l ≡ some l'
      → IsServed l
      → IsServed l'
  unfolding serve
  serve_from-IsServed [] l l' served i = let same : l ≡ l' = ground arith in subst IsServed same i
  serve_from-IsServed (e ∷ es) l l' served i = elim (Option-cases (step s e l)) [
    | inl stuck ↦ absurd (ground arith)
    | inr (next, stepped) ↦
        serve_from-IsServed es next l' (ground arith) (step-IsServed e l next stepped i)
  ]

  -- Whatever comes in and whatever the order in which the tasks run: every message is handled at
  -- most once, the replies are those to the handled messages with their contexts and channels, and
  -- the trace is complete.
  pub serve-IsServed :
      (trace : Bool) (es : List (Event Context Wire)) (l : Loop Context Wire)
      → serve s es (started trace) ≡ some l
      → IsServed l
  unfolding started
  serve-IsServed trace es l served =
      let start : IsServed (started trace) = record {
        once = Perm.refl [];
        answered = refl;
        traced_in = ground arith;
        traced_out = ground arith;
      } in
      serve_from-IsServed es (started trace) l served start

  run_task-first :
      (l : Loop Context Wire) (p : Packet Context Wire) (ps : List (Packet Context Wire))
      → l.tasks ≡ p ∷ ps
      → (l' : Loop Context Wire) × (run_task s 0 l ≡ some l')
        × (l'.tasks ≡ ps)
        × (l'.handled ≡ l.handled ++ (p ∷ []))
        × (l'.received ≡ l.received)
  unfolding run_task take_task
  run_task-first l p ps h =
      let taken : Loop Context Wire = record l { tasks = ps; handled = l.handled ++ (p ∷ []) } in
      elim (Option-cases (reply_to s p)) [
        | inl quiet ↦ (taken, ground arith, refl, refl, refl)
        | inr (r, spoken) ↦ (send_reply s (some r) taken, ground arith, refl, refl, refl)
      ]

  serve-in_order :
      (ps : List (Packet Context Wire)) (l : Loop Context Wire)
      → l.tasks ≡ ps
      → (l' : Loop Context Wire) × (serve s (in_order ps) l ≡ some l')
        × (l'.tasks ≡ [])
        × (l'.received ≡ l.received)
  unfolding serve step
  serve-in_order [] l h = (l, refl, h, refl)
  serve-in_order (p ∷ ps) l h =
      let (next, ran, tasks, _, received) = run_task-first l p ps h in
      let (l', served, none_left, same) = serve-in_order ps next tasks in
      (l', ground arith, none_left, same ∙ received)

  -- The tasks of a server that has served for a while can all run. Then every message that came in
  -- is handled exactly once, and what was sent are the replies that the handling of the messages
  -- comes to, in the order of their handling, each with the context and the channel of its message.
  -- No reply is sent for a notification or where the handling raises. Every method returns.
  pub serve-finishes :
      (trace : Bool) (es : List (Event Context Wire)) (l : Loop Context Wire)
      → serve s es (started trace) ≡ some l
      → (l' : Loop Context Wire) × (serve s (in_order l.tasks) l ≡ some l')
        × (l'.received ≡ l.received)
        × Perm l'.received l'.handled
        × (l'.sent ≡ replies l'.handled)
  serve-finishes trace es l served =
      let (l', finished, none_left, same) = serve-in_order l.tasks l refl in
      let i =
        serve_from-IsServed (in_order l.tasks) l l' finished (serve-IsServed trace es l served) in
      let all_handled : l'.handled ++ l'.tasks ≡ l'.handled =
        ap (λ ts. l'.handled ++ ts) none_left ∙ append-nil l'.handled in
      (l', finished, same, subst (Perm l'.received) all_handled i.once, i.answered)
