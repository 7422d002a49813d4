-- ===== src/Channels/Exchange.antt =====
-- One exchange on a channel: `send_message`, the deliveries after it, and the wait for the reply.
use aiotinyrpc.Base.{
  ℕ, ◌==◌, ◌≡◌, refl, ap, ◌∙◌, inl, inr, Bool, true, false, Option, none, some, List, [], ◌∷◌, ◌++◌,
  All, arith, Bool-cases, Option-cases, ◌≢◌, if◌then◌else◌,
}
use mathlib.Core.List.{append-nil, append_assoc}
use mathlib.Core.Option.{none-ne-some}
use aiotinyrpc.Channels.{
  Channel, ChannelManager, find, update, has_id, wanted, take_over, awaits, send_message, deliver,
  await_reply, next_message, get_channel_by_id, head_of, finish,
}
use aiotinyrpc.Channels.Ids.{ids, Distinct, IsManaged}

module _ {A : Type 0} where
  -- The messages that name the channel, in their order.
  unfoldable pub all_for : ℕ → List (ℕ × A) → List A
  all_for i [] = []
  all_for i ((j, a) ∷ msgs) = let rest = all_for i msgs in if j == i then a ∷ rest else rest

  unfoldable pub deliver_all : ChannelManager A → List (ℕ × A) → ChannelManager A
  deliver_all m [] = m
  deliver_all m ((j, a) ∷ msgs) = deliver_all (deliver m j a) msgs

  abbrev append_to : A → Channel A → Channel A
  append_to a c = record c { q = c.q ++ a ∷ [] }

  find-update_ne :
      (i j : ℕ) (a : A) (cs : List (Channel A))
      → (j == i) ≡ false
      → find (has_id i) (update (has_id j) (append_to a) cs) ≡ find (has_id i) cs
  unfolding find update
  find-update_ne i j a [] h = refl
  find-update_ne i j a (c ∷ cs) h = ground (arith, find-update_ne i j a cs h)

  find-update_self :
      (i : ℕ) (a : A) (cs : List (Channel A)) (c : Channel A)
      → find (has_id i) cs ≡ some c
      → find (has_id i) (update (has_id i) (append_to a) cs) ≡ some (append_to a c)
  unfolding find update
  find-update_self i a [] c h = cc
  find-update_self i a (d ∷ cs) c h = ground (arith, find-update_self i a cs c)

  find-ne :
      (test : Channel A → Bool) (cs : List (Channel A)) (c : Channel A) (i : ℕ)
      → All (λ j. j ≢ i) (ids cs)
      → find test cs ≡ some c
      → c.id ≢ i
  unfolding find
  find-ne test [] c i d h = absurd (none-ne-some c h)
  find-ne test (e ∷ cs) c i (de, d) h = elim (Bool-cases (test e)) [
    | inl t ↦ ground arith
    | inr t ↦ find-ne test cs c i d (ground arith)
  ]

  -- With distinct ids the channel that was found and taken over is the one with its id.
  find-has_id :
      (test : Channel A → Bool) (cs : List (Channel A)) (c : Channel A)
      → Distinct (ids cs)
      → find test cs ≡ some c
      → find (has_id c.id) (update test take_over cs) ≡ some (take_over c)
  unfolding find update
  find-has_id test [] c d h = cc
  find-has_id test (e ∷ cs) c (de, d) h = elim (Bool-cases (test e)) [
    | inl t ↦ rw t (ground arith)
    | inr t ↦
        let f : find test cs ≡ some c = ground arith in
        rw t (ground (arith, find-has_id test cs c d f, find-ne test cs c e.id de f))
  ]

  -- What deliveries do to the channel with an id: the messages that name it are appended.
  queue-deliver_all :
      (m : ChannelManager A) (i : ℕ) (msgs : List (ℕ × A)) (c : Channel A)
      → get_channel_by_id m i ≡ some c
      → get_channel_by_id (deliver_all m msgs) i ≡ some (record c { q = c.q ++ all_for i msgs })
  unfolding deliver_all get_channel_by_id deliver all_for
  queue-deliver_all m i [] c h = h ∙ rw append-nil refl
  queue-deliver_all m i ((j, a) ∷ msgs) c h = elim (Bool-cases (j == i)) [
    | inl e ↦ rw e (
        queue-deliver_all (deliver m j a) i msgs (append_to a c)
          (ground (arith, find-update_self i a m.channels c h))
        ∙ rw append_assoc refl)
    | inr e ↦
        rw e (queue-deliver_all (deliver m j a) i msgs c (find-update_ne i j a m.channels e ∙ h))
  ]

  sent-channel :
      (m m' : ChannelManager A) (chan_id : Option ℕ) (i : ℕ)
      → IsManaged m
      → send_message m true chan_id ≡ (awaits i, m')
      → (c : Channel A) × (get_channel_by_id m' i ≡ some c) × (c.q ≡ [])
  unfolding send_message get_channel_by_id
  sent-channel m m' chan_id i h e = elim (Option-cases (find (wanted chan_id false) m.channels)) [
    | inl missing ↦ absurd (ground arith)
    | inr (c, found) ↦ (
      take_over c,
      ground (arith, find-has_id (wanted chan_id false) m.channels c h.distinct found),
      refl,
    )
  ]

  finish-result : (m : ChannelManager A) (i : ℕ) (o : Option A) → (finish m i o).0 ≡ o
  finish-result m i none = refl
  finish-result m i (some a) = refl

  await_reply_lem :
      (m : ChannelManager A) (i : ℕ) → (await_reply m i).0 ≡ next_message (get_channel_by_id m i)
  unfolding await_reply
  await_reply_lem m i = finish-result m i _

  -- However many messages come for the channels after a message was sent that awaits a reply, and
  -- in whatever order, the sender gets the first one that names its channel, and none that was
  -- there before; if there is none, it waits.
  pub await_reply-first :
      (m m' : ChannelManager A) (chan_id : Option ℕ) (i : ℕ) (msgs : List (ℕ × A))
      → IsManaged m
      → send_message m true chan_id ≡ (awaits i, m')
      → (await_reply (deliver_all m' msgs) i).0 ≡ head_of (all_for i msgs)
  await_reply-first m m' chan_id i msgs h e =
      let (c, at, fresh) = sent-channel m m' chan_id i h e in
      await_reply_lem (deliver_all m' msgs) i
      ∙ ap next_message (queue-deliver_all m' i msgs c at)
      ∙ ap (λ (l : List A). head_of (l ++ all_for i msgs)) fresh
