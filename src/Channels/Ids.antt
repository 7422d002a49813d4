-- ===== src/Channels/Ids.antt =====
-- The ids of the channels, over any use of a `ChannelManager`.
use aiotinyrpc.Base.{
  ℕ, ◌<◌, ◌≡◌, ◌≢◌, refl, inl, inr, Bool, false, Option, List, [], ◌∷◌, ◌++◌, All, All-append,
  arith, Bool-cases,
}
use aiotinyrpc.Channels.{
  Channel, ChannelManager, update, drop_first, has_id, wanted, take_over, get_channel,
  release_channel, free_all, add_channel, remove_all_channels, remove_channel, deliver,
}

abbrev pub Distinct : List ℕ → Type 0
Distinct [] = Unit
Distinct (i ∷ is) = All (λ j. j ≢ i) is × Distinct is

All-weaken : {P Q : ℕ → Type 0} → ((i : ℕ) → P i → Q i) → (is : List ℕ) → All P is → All Q is
All-weaken f [] h = tt
All-weaken f (i ∷ is) (h, hs) = (f i h, All-weaken f is hs)

Distinct-append_new :
    (n : ℕ) (is : List ℕ) → All (λ i. i < n) is → Distinct is → Distinct (is ++ n ∷ [])
Distinct-append_new n [] h d = (tt, tt)
Distinct-append_new n (i ∷ is) (h, hs) (d, ds) =
    (All-append (λ j. j ≢ i) is (n ∷ []) d (omega arith, tt), Distinct-append_new n is hs ds)

-- What uses the channels, in any order.
pub data Op (A : Type 0) : Type 0 where
  gets : Option ℕ → Bool → Op A
  releases : ℕ → Op A
  adds : Bool → Op A
  clears : Op A
  removes : Option ℕ → Op A
  delivers : ℕ → A → Op A

module _ {A : Type 0} where
  abbrev pub ids : List (Channel A) → List ℕ
  ids [] = []
  ids (c ∷ cs) = c.id ∷ ids cs

  pub record IsManaged (m : ChannelManager A) : Type 0 where
    pub below : All (λ i. i < m.channel_count) (ids m.channels)
    pub distinct : Distinct (ids m.channels)

  ids-update :
      (test : Channel A → Bool) (f : Channel A → Channel A) (cs : List (Channel A))
      → ((c : Channel A) → (f c).id ≡ c.id)
      → ids (update test f cs) ≡ ids cs
  unfolding update
  ids-update test f [] h = refl
  ids-update test f (c ∷ cs) h = ground (arith, h c, ids-update test f cs h)

  ids-free_all : (i : ℕ) (cs : List (Channel A)) → ids (free_all i cs) ≡ ids cs
  unfolding free_all
  ids-free_all i [] = refl
  ids-free_all i (c ∷ cs) = ground (arith, ids-free_all i cs)

  All-drop_first :
      (P : ℕ → Type 0) (test : Channel A → Bool) (cs : List (Channel A))
      → All P (ids cs)
      → All P (ids (drop_first test cs))
  unfolding drop_first
  All-drop_first P test [] h = tt
  All-drop_first P test (c ∷ cs) (hc, hs) = elim (Bool-cases (test c)) [
    | inl e ↦ rw e hs
    | inr e ↦ rw e (hc, All-drop_first P test cs hs)
  ]

  Distinct-drop_first :
      (test : Channel A → Bool) (cs : List (Channel A))
      → Distinct (ids cs)
      → Distinct (ids (drop_first test cs))
  unfolding drop_first
  Distinct-drop_first test [] h = tt
  Distinct-drop_first test (c ∷ cs) (hc, hs) = elim (Bool-cases (test c)) [
    | inl e ↦ rw e hs
    | inr e ↦ rw e (All-drop_first (λ j. j ≢ c.id) test cs hc, Distinct-drop_first test cs hs)
  ]

  ids-append : (cs ds : List (Channel A)) → ids (cs ++ ds) ≡ ids cs ++ ids ds
  ids-append [] ds = refl
  ids-append (c ∷ cs) ds = rw (ids-append cs ds)

  same_ids :
      (m m' : ChannelManager A)
      → ids m'.channels ≡ ids m.channels
      → m'.channel_count ≡ m.channel_count
      → IsManaged m
      → IsManaged m'
  same_ids m m' e f h = record { below = rw (e, f) h.below; distinct = rw e h.distinct }

  ids-get_channel :
      (m : ChannelManager A) (i : Option ℕ) (b : Bool)
      → ids (get_channel m i b).1.channels ≡ ids m.channels
  unfolding get_channel
  ids-get_channel m i b = ids-update (wanted i b) take_over m.channels (λ c. refl)

  unfoldable perform : ChannelManager A → Op A → ChannelManager A
  perform m (gets i b) = (get_channel m i b).1
  perform m (releases i) = release_channel m i
  perform m (adds b) = (add_channel m b).1
  perform m clears = remove_all_channels m
  perform m (removes i) = remove_channel m i
  perform m (delivers i a) = deliver m i a

  perform-IsManaged : (m : ChannelManager A) (op : Op A) → IsManaged m → IsManaged (perform m op)
  unfolding perform get_channel release_channel add_channel remove_all_channels remove_channel
      deliver
  perform-IsManaged m (gets i b) h =
      same_ids m _ (ids-update (wanted i b) take_over m.channels (λ c. refl)) refl h
  perform-IsManaged m (releases i) h = same_ids m _ (ids-free_all i m.channels) refl h
  perform-IsManaged m (adds b) h = record {
    below = rw ids-append (
        All-append _ (ids m.channels) _ (All-weaken (λ i l. omega arith) (ids m.channels) h.below)
          (omega arith, tt));
    distinct =
        rw ids-append (Distinct-append_new m.channel_count (ids m.channels) h.below h.distinct);
  }
  perform-IsManaged m clears h = record { below = tt; distinct = tt }
  perform-IsManaged m (removes i) h = record {
    below = All-drop_first _ (wanted i false) m.channels h.below;
    distinct = Distinct-drop_first (wanted i false) m.channels h.distinct;
  }
  perform-IsManaged m (delivers i a) h =
      same_ids m _
        (ids-update (has_id i) (λ c. record c { q = c.q ++ a ∷ [] }) m.channels (λ c. refl)) refl h

  unfoldable pub perform_all : ChannelManager A → List (Op A) → ChannelManager A
  unfolding perform
  perform_all m [] = m
  perform_all m (op ∷ ops) = perform_all (perform m op) ops

  -- Whatever is done with the channels, their ids stay distinct, and below the count from which the
  -- next id is taken.
  pub perform_all-IsManaged :
      (m : ChannelManager A) (ops : List (Op A)) → IsManaged m → IsManaged (perform_all m ops)
  unfolding perform_all
  perform_all-IsManaged m [] h = h
  perform_all-IsManaged m (op ∷ ops) h =
      perform_all-IsManaged (perform m op) ops (perform-IsManaged m op h)
