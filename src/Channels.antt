-- ===== src/Channels.antt =====
-- fluxrpc/transports/socket/client.py, `Channel` and `ChannelManager`: the message queues that
-- share one socket, and what `send_message` and the read loop do with them. Texts of log lines
-- are left out.
pub mod Ids
pub mod Leaks
pub mod Exchange
use aiotinyrpc.Base.{
  ℕ, zero, suc, ◌+◌, ◌==◌, Bool, true, false, not, ◌&&◌, Option, none, some, List, [], ◌∷◌, ◌++◌,
  if◌then◌else◌,
}

module _ (A : Type 0) where
  -- `q` holds the messages that have been put into the queue, the oldest first.
  pub record Channel : Type 0 where
    pub id : ℕ
    pub exclusive : Bool
    pub in_use : Bool
    pub q : List A

  pub record ChannelManager : Type 0 where
    pub channels : List Channel
    pub channel_count : ℕ

-- Where `send_message` gets to: it finds no channel and returns, it waits for a reply on a
-- channel, or it has sent a message that expects none.
pub data Sent : Type 0 where
  no_channel : Sent
  awaits : ℕ → Sent
  finished : ℕ → Sent

module _ {A : Type 0} where
  -- `next(filter(test, self.channels), None)`
  unfoldable pub find : (Channel A → Bool) → List (Channel A) → Option (Channel A)
  find test [] = none
  find test (c ∷ cs) = if test c then some c else find test cs

  -- The write to the channel that `find` returns.
  unfoldable pub update :
      (Channel A → Bool) → (Channel A → Channel A) → List (Channel A) → List (Channel A)
  update test f [] = []
  update test f (c ∷ cs) = if test c then f c ∷ cs else c ∷ update test f cs

  -- `self.channels.remove(channel)` of that channel
  unfoldable pub drop_first : (Channel A → Bool) → List (Channel A) → List (Channel A)
  drop_first test [] = []
  drop_first test (c ∷ cs) = if test c then cs else c ∷ drop_first test cs

  abbrev pub has_id : ℕ → Channel A → Bool
  has_id i c = c.id == i

  abbrev pub is_free : Bool → Channel A → Bool
  is_free true c = not c.in_use && c.exclusive
  is_free false c = not c.in_use && not c.exclusive

  -- Which channel `get_channel` asks for. `if chan_id` takes the id 0 for no id.
  abbrev pub wanted : Option ℕ → Bool → Channel A → Bool
  wanted none exclusive c = is_free exclusive c
  wanted (some zero) exclusive c = is_free exclusive c
  wanted (some (suc i)) exclusive c = has_id (suc i) c

  -- The loop that empties the queue, and the mark.
  abbrev pub take_over : Channel A → Channel A
  take_over c = record c { in_use = true; q = [] }

  abbrev taken : Option (Channel A) → Option (Channel A)
  taken none = none
  taken (some c) = some (take_over c)

  unfoldable pub get_channel :
      ChannelManager A → Option ℕ → Bool → Option (Channel A) × ChannelManager A
  unfolding find update
  get_channel m chan_id exclusive = (
    taken (find (wanted chan_id exclusive) m.channels),
    record m { channels = update (wanted chan_id exclusive) take_over m.channels },
  )

  free_all : ℕ → List (Channel A) → List (Channel A)
  free_all i [] = []
  free_all i (c ∷ cs) = (if i == c.id then record c { in_use = false } else c) ∷ free_all i cs

  -- The body of the coroutine `release_channel`.
  unfoldable pub release_channel : ChannelManager A → ℕ → ChannelManager A
  unfolding free_all
  release_channel m i = record m { channels = free_all i m.channels }

  unfoldable pub get_channel_by_id : ChannelManager A → ℕ → Option (Channel A)
  unfolding find
  get_channel_by_id m i = find (has_id i) m.channels

  -- `get_next_free_id` and `add_channel`
  unfoldable pub add_channel : ChannelManager A → Bool → ℕ × ChannelManager A
  add_channel m exclusive = (
    m.channel_count,
    record {
      channels =
          m.channels
          ++ record { id = m.channel_count; exclusive = exclusive; in_use = false; q = [] } ∷ [];
      channel_count = suc m.channel_count;
    },
  )

  unfoldable pub remove_all_channels : ChannelManager A → ChannelManager A
  remove_all_channels m = record m { channels = [] }

  unfoldable pub remove_channel : ChannelManager A → Option ℕ → ChannelManager A
  unfolding drop_first
  remove_channel m chan_id = record m { channels = drop_first (wanted chan_id false) m.channels }

  -- The case of `process_messages` for replies: into the queue of the channel that they name. A
  -- reply to an unknown channel is dropped.
  unfoldable pub deliver : ChannelManager A → ℕ → A → ChannelManager A
  unfolding update
  deliver m i a = record m {
    channels = update (has_id i) (λ c. record c { q = c.q ++ a ∷ [] }) m.channels;
  }

  -- `get_exclusive_channel`; `none` is a `ChannelError`
  abbrev id_of : Option (Channel A) → Option ℕ
  id_of none = none
  id_of (some c) = some c.id

  unfoldable get_exclusive_channel : ChannelManager A → Option ℕ × ChannelManager A
  unfolding get_channel
  get_exclusive_channel m = let (c, m') = get_channel m none true in (id_of c, m')

  abbrev pub started : Bool → Option (Channel A) × ChannelManager A → Sent × ChannelManager A
  started expect_reply (none, m) = (no_channel, m)
  started true (some c, m) = (awaits c.id, m)
  started false (some c, m) = (finished c.id, m)

  -- `send_message` up to the wait for the reply. Without a reply to wait for, the coroutine of
  -- `release_channel` is made and not awaited, so its body does not run.
  unfoldable pub send_message : ChannelManager A → Bool → Option ℕ → Sent × ChannelManager A
  unfolding get_channel
  send_message m expect_reply chan_id = started expect_reply (get_channel m chan_id false)

  abbrev pub head_of : List A → Option A
  head_of [] = none
  head_of (a ∷ as') = some a

  abbrev tail_of : List A → List A
  tail_of [] = []
  tail_of (a ∷ as') = as'

  abbrev pub next_message : Option (Channel A) → Option A
  next_message none = none
  next_message (some c) = head_of c.q

  -- The rest of it, where a reply is awaited. `none` is the timeout, or an empty queue: the
  -- exception leaves `send_message` before the channel is released.
  abbrev pub finish : ChannelManager A → ℕ → Option A → Option A × ChannelManager A
  finish m i none = (none, m)
  finish m i (some a) = (
    some a,
    release_channel
        (record m { channels = update (has_id i) (λ c. record c { q = tail_of c.q }) m.channels })
        i,
  )

  unfoldable pub await_reply : ChannelManager A → ℕ → Option A × ChannelManager A
  unfolding get_channel_by_id update release_channel
  await_reply m i = finish m i (next_message (get_channel_by_id m i))
