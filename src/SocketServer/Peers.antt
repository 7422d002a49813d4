-- ===== src/SocketServer/Peers.antt =====
-- fluxrpc/transports/socket/server.py, `EncryptablePeerGroup`: the connected peers by their
-- addresses. The tasks that are cancelled with a peer are left out.
use aiotinyrpc.Base.{
  ℕ, String, str_eq, str_eq_refl, str_eq_iff, if_cases, Bool-cases, inl, inr, ap, ◌∙◌, ◌==◌, ◌≡◌,
  refl, Bool, true, false, ◌&&◌, ◌||◌, Option, none, some, List, [], ◌∷◌, ◌++◌, All, arith,
  if◌then◌else◌,
}

-- The host and the port.
abbrev pub PeerId : Type 0
PeerId = String × ℕ

abbrev pub same_id : PeerId → PeerId → Bool
same_id (h, p) (h', p') = str_eq h h' && p == p'

same_id_refl : (i : PeerId) → same_id i i ≡ true
same_id_refl (h, p) = ground (arith, str_eq_refl h)

-- The peers of the group, and the ids whose writers were closed.
pub record PeerGroup : Type 0 where
  pub peers : List PeerId
  pub closed_writers : List PeerId

unfoldable find_peer : PeerId → List PeerId → Option PeerId
find_peer i [] = none
find_peer i (p ∷ ps) = if same_id p i then some p else find_peer i ps

unfoldable pub get_peer : PeerGroup → PeerId → Option PeerId
unfolding find_peer
get_peer g i = find_peer i g.peers

unfoldable add_peer : PeerGroup → PeerId → PeerGroup
add_peer g p = record g { peers = g.peers ++ p ∷ [] }

-- `[x for x in self.peers if x.id != id]`
unfoldable pub without : PeerId → List PeerId → List PeerId
without i [] = []
without i (p ∷ ps) = let rest = without i ps in if same_id p i then rest else p ∷ rest

abbrev destroy_found : PeerGroup → PeerId → Option PeerId → PeerGroup
destroy_found g i none = g
destroy_found g i (some p) = record {
  peers = without i g.peers;
  closed_writers = g.closed_writers ++ p ∷ [];
}

unfoldable pub destroy_peer : PeerGroup → PeerId → PeerGroup
unfolding get_peer without
destroy_peer g i = destroy_found g i (get_peer g i)

-- The loop runs over the list as it was at its start.
unfoldable destroy_each : List PeerId → PeerGroup → PeerGroup
unfolding destroy_peer
destroy_each [] g = g
destroy_each (p ∷ ps) g = destroy_each ps (destroy_peer g p)

unfoldable pub destroy_all_peers : PeerGroup → PeerGroup
unfolding destroy_each
destroy_all_peers g = destroy_each g.peers g

without-unknown : (i : PeerId) (ps : List PeerId) → find_peer i ps ≡ none → without i ps ≡ ps
unfolding find_peer without
without-unknown i [] h = refl
without-unknown i (p ∷ ps) h = ground (arith, without-unknown i ps)

peers-destroy_peer : (g : PeerGroup) (i : PeerId) → (destroy_peer g i).peers ≡ without i g.peers
unfolding destroy_peer get_peer
peers-destroy_peer g i = ground (arith, without-unknown i g.peers)

find_peer-without : (i : PeerId) (ps : List PeerId) → find_peer i (without i ps) ≡ none
unfolding find_peer without
find_peer-without i [] = refl
find_peer-without i (p ∷ ps) = ground (arith, find_peer-without i ps)

abbrev is_listed : List PeerId → PeerId → Bool
is_listed [] p = false
is_listed (i ∷ is) p = same_id p i || is_listed is p

abbrev IsListed : List PeerId → PeerId → Type 0
IsListed is p = is_listed is p ≡ true

All-without :
    (i : PeerId) (is ps : List PeerId)
    → All (IsListed (i ∷ is)) ps
    → All (IsListed is) (without i ps)
unfolding without
All-without i is [] h = tt
All-without i is (p ∷ ps) (hp, hs) =
    if_cases (All (IsListed is)) (same_id p i) (λ e. All-without i is ps hs)
      (λ e. (ground arith, All-without i is ps hs))

empties :
    (is : List PeerId) (g : PeerGroup) → All (IsListed is) g.peers → (destroy_each is g).peers ≡ []
unfolding destroy_each
empties [] g h = nobody g.peers h
  where
    nobody : (ps : List PeerId) → All (IsListed []) ps → ps ≡ []
    nobody [] hs = refl
    nobody (p ∷ ps) (hp, hs) = cc hp
empties (i ∷ is) g h =
    empties is (destroy_peer g i) (rw (peers-destroy_peer g i) (All-without i is g.peers h))

All-IsListed :
    (is ps : List PeerId)
    → ((p : PeerId) → is_listed ps p ≡ true → is_listed is p ≡ true)
    → All (IsListed is) ps
All-IsListed is [] h = tt
All-IsListed is (p ∷ ps) h =
    (h p (ground (arith, same_id_refl p)), All-IsListed is ps (λ q e. h q (ground arith)))

-- No peer is left after all of them were destroyed.
pub destroy_all_peers-empties : (g : PeerGroup) → (destroy_all_peers g).peers ≡ []
unfolding destroy_all_peers
destroy_all_peers-empties g = empties g.peers g (All-IsListed g.peers g.peers (λ p e. e))

same_id_path : (p q : PeerId) → same_id p q ≡ true → p ≡ q
same_id_path (h, p) (h', p') e = ground (arith, str_eq_iff h h')

apart : (i j p : PeerId) → same_id p i ≡ true → same_id j i ≡ false → same_id p j ≡ false
apart i j p e ne = elim (Bool-cases (same_id p j)) [
  | inl e' ↦ cc (e, ne, same_id_path p j e')
  | inr e' ↦ e'
]

find_peer_ne-without :
    (i j : PeerId) (ps : List PeerId)
    → same_id j i ≡ false
    → find_peer j (without i ps) ≡ find_peer j ps
unfolding find_peer without
find_peer_ne-without i j [] h = refl
find_peer_ne-without i j (p ∷ ps) h = ground (arith, find_peer_ne-without i j ps h, apart i j p)

-- A destroyed peer is found no more, and every peer with another id is found as before.
pub get_peer-destroy_peer :
    (g : PeerGroup) (i j : PeerId)
    → get_peer (destroy_peer g i) j ≡ (if same_id j i then none else get_peer g j)
unfolding get_peer
get_peer-destroy_peer g i j = rw (peers-destroy_peer g i) (
    if_cases (λ o. find_peer j (without i g.peers) ≡ o) (same_id j i)
      (λ e.
        ap (λ k. find_peer k (without i g.peers)) (same_id_path j i e)
        ∙ find_peer-without i g.peers)
      (λ e. find_peer_ne-without i j g.peers e))
