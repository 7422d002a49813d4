-- ===== src/Channels/Leaks.antt =====
-- Channels and their mark of use, in messages that expect no reply and in timeouts.
use aiotinyrpc.Base.{
  ℕ, zero, suc, ◌≡◌, refl, sym, ap, ◌∙◌, inl, inr, Bool, true, false, Option, none, some, List, [],
  ◌∷◌, arith, Bool-cases,
}
use aiotinyrpc.Channels.{
  Channel, ChannelManager, find, update, is_free, take_over, no_channel, send_message, started,
  await_reply, next_message, get_channel_by_id,
}

module _ {A : Type 0} where
  -- The channels that a send without a channel id can use.
  unfoldable pub count_free : List (Channel A) → ℕ
  count_free [] = 0
  count_free (c ∷ cs) =
      let rest = count_free cs in elim (is_free false c) [ true ↦ suc rest | false ↦ rest ]

  count_free-hit :
      (c : Channel A) (cs : List (Channel A))
      → is_free false c ≡ true
      → count_free (c ∷ cs) ≡ suc (count_free cs)
  unfolding count_free
  count_free-hit c cs e = ground arith

  count_free-miss :
      (c : Channel A) (cs : List (Channel A))
      → is_free false c ≡ false
      → count_free (c ∷ cs) ≡ count_free cs
  unfolding count_free
  count_free-miss c cs e = ground arith

  count_free-update :
      (cs : List (Channel A)) (n : ℕ)
      → count_free cs ≡ suc n
      → count_free (update (is_free false) take_over cs) ≡ n
  unfolding count_free update
  count_free-update [] n h = absurd (omega arith)
  count_free-update (c ∷ cs) n h = elim (Bool-cases (is_free false c)) [
    | inl e ↦ rw e (omega (arith, count_free-hit c cs e))
    | inr e ↦ rw e (
        count_free-miss c (update (is_free false) take_over cs) e
        ∙ count_free-update cs n (sym (count_free-miss c cs e) ∙ h))
  ]

  find-free :
      (cs : List (Channel A)) (n : ℕ)
      → count_free cs ≡ suc n
      → (c : Channel A) × (find (is_free false) cs ≡ some c)
  unfolding count_free find
  find-free [] n h = absurd (omega arith)
  find-free (c ∷ cs) n h = elim (Bool-cases (is_free false c)) [
    | inl e ↦ (c, ground arith)
    | inr e ↦ let (d, f) = find-free cs n (ground arith) in (d, ground arith)
  ]

  find-no_free : (cs : List (Channel A)) → count_free cs ≡ 0 → find (is_free false) cs ≡ none
  unfolding count_free find
  find-no_free [] h = refl
  find-no_free (c ∷ cs) h = ground (arith, find-no_free cs)

  -- `n` messages that expect no reply, one after the other.
  unfoldable pub send_one_way : ℕ → ChannelManager A → ChannelManager A
  send_one_way zero m = m
  send_one_way (suc n) m = send_one_way n (send_message m false none).1

  started-state :
      (b : Bool) (o : Option (Channel A)) (m : ChannelManager A) → (started b (o, m)).1 ≡ m
  started-state b none m = refl
  started-state true (some c) m = refl
  started-state false (some c) m = refl

  send_message-free :
      (m : ChannelManager A) (n : ℕ) (expect_reply : Bool)
      → count_free m.channels ≡ suc n
      → count_free (send_message m expect_reply none).1.channels ≡ n
  unfolding send_message
  send_message-free m n b h =
      ap (λ k. count_free k.channels) (started-state b _ _) ∙ count_free-update m.channels n h

  send_message-no_channel :
      (m : ChannelManager A) (expect_reply : Bool)
      → count_free m.channels ≡ 0
      → (send_message m expect_reply none).0 ≡ no_channel
  unfolding send_message
  send_message-no_channel m b h = ground (arith, find-no_free m.channels h)

  -- Each message without a reply costs a channel for good: with `n` channels free, after `n` such
  -- messages no message can be sent, whether it expects a reply or not.
  pub send_one_way-exhausts :
      (n : ℕ) (m : ChannelManager A) (expect_reply : Bool)
      → count_free m.channels ≡ n
      → (send_message (send_one_way n m) expect_reply none).0 ≡ no_channel
  unfolding send_one_way
  send_one_way-exhausts zero m b h = send_message-no_channel m b h
  send_one_way-exhausts (suc n) m b h =
      send_one_way-exhausts n (send_message m false none).1 b (send_message-free m n false h)

  -- A reply that does not come leaves the channels as they are, the one that waits included.
  pub await_reply-timeout :
      (m : ChannelManager A) (i : ℕ)
      → next_message (get_channel_by_id m i) ≡ none
      → await_reply m i ≡ (none, m)
  unfolding await_reply
  await_reply-timeout m i h = rw (h, await_reply) refl
