-- ===== src/SocketClient/Reconnect.antt =====
-- fluxrpc/transports/socket/client.py, `writeable` and `ensure_connected`. What the transport's
-- `connect` and `send_message` come to is given for each turn of the loop, since the network is not
-- the same from one turn to the next.
use aiotinyrpc.Base.{
  ℕ, zero, suc, ◌+◌, str_eq, ◌≡◌, sym, ap, Bool, true, false, not, ◌&&◌, Option, none, some,
  if◌then◌else◌, arith, if_cases, subst, Bool-cases, inl, inr,
}
use aiotinyrpc.Messages.{Message, liveliness}
use aiotinyrpc.SocketClient.{Transport, disconnect}

-- What `send_message` returns for a test message within three seconds; `none` is a timeout or an
-- exception of the socket.
pub record World : Type 0 where
  pub connect : ℕ → Bool → Transport → Option ℕ × Transport
  pub echo : ℕ → Option ℕ → Transport → Option (Option Message) × Transport

-- `isinstance(res, LivelinessMessage)` and `res.text == "ohcE"`
abbrev pub is_echo : Option (Option Message) → Bool
is_echo (some (some (liveliness i text))) = str_eq text "ohcE"
is_echo o = false

add_zero : (n : ℕ) → n + 0 ≡ n
add_zero n = omega arith

zero_add : (n : ℕ) → 0 + n ≡ n
zero_add n = omega arith

add_suc : (n m : ℕ) → n + suc m ≡ suc n + m
add_suc n m = omega arith

module _ (w : World) where
  -- `writeable`
  abbrev tested : Option (Option Message) × Transport → Bool × Transport
  tested (o, t) = (is_echo o, t)

  unfoldable pub writeable : ℕ → Option ℕ → Transport → Bool × Transport
  writeable n chan_id t = if t.socket then tested (w.echo n chan_id t) else (false, t)

  -- The loop of `ensure_connected`, for so many turns at most. `none` is a loop that goes on.
  unfoldable pub reconnect : ℕ → ℕ → Bool → Option ℕ × Transport → Option (Option ℕ × Transport)
  unfolding writeable
  reconnect zero n exclusive (chan_id, t) = none
  reconnect (suc fuel) n exclusive (chan_id, t) =
      let (answers, t') = writeable n chan_id t in
      let rest = reconnect fuel (suc n) exclusive (w.connect n exclusive t') in
      if answers then some (chan_id, t') else rest

  -- `if chan_id and not disconnect_all_channels`
  abbrev is_set : Option ℕ → Bool
  is_set none = false
  is_set (some zero) = false
  is_set (some (suc i)) = true

  abbrev dropped : Bool → Transport → Transport
  dropped false t = t
  dropped true t = disconnect t none true

  abbrev afresh : ℕ → Bool → Transport → Option (Option ℕ × Transport)
  afresh fuel exclusive t = reconnect fuel 1 exclusive (w.connect 0 exclusive t)

  abbrev reused : ℕ → Bool → Option ℕ → Bool × Transport → Option (Option ℕ × Transport)
  reused fuel exclusive chan_id (true, t) = some (chan_id, t)
  reused fuel exclusive chan_id (false, t) = afresh fuel exclusive (disconnect t none true)

  -- `ensure_connected`
  unfoldable pub ensure_connected :
      ℕ → Option ℕ → Bool → Bool → Transport → Option (Option ℕ × Transport)
  unfolding reconnect disconnect
  ensure_connected fuel chan_id drops exclusive t =
      if is_set chan_id && not drops
      then reused fuel exclusive chan_id (writeable 0 chan_id (dropped drops t))
      else afresh fuel exclusive (dropped drops t)

  -- A channel over which the test message came back.
  pub record IsWriteable (o : Option ℕ × Transport) : Type 0 where
    pub turn : ℕ
    pub before : Transport
    pub has_socket : before.socket ≡ true
    pub echoed : writeable turn o.0 before ≡ (true, o.1)

  abbrev Answers : Option (Option ℕ × Transport) → Type 0
  Answers none = Unit
  Answers (some o) = IsWriteable o

  writeable-socket :
      (n : ℕ) (i : Option ℕ) (t : Transport) → (writeable n i t).0 ≡ true → t.socket ≡ true
  unfolding writeable
  writeable-socket n i t e = ground arith

  tested-Answers :
      (n : ℕ) (i : Option ℕ) (t : Transport)
      → (writeable n i t).0 ≡ true
      → IsWriteable (i, (writeable n i t).1)
  tested-Answers n i t e = record {
    turn = n;
    before = t;
    has_socket = writeable-socket n i t e;
    echoed = ap (λ b. (b, (writeable n i t).1)) e;
  }

  reconnect-Answers :
      (fuel n : ℕ) (exclusive : Bool) (o : Option ℕ × Transport)
      → Answers (reconnect fuel n exclusive o)
  unfolding reconnect
  reconnect-Answers zero n exclusive (i, t) = tt
  reconnect-Answers (suc fuel) n exclusive (i, t) =
      if_cases Answers (writeable n i t).0 (tested-Answers n i t)
        (λ e. reconnect-Answers fuel (suc n) exclusive (w.connect n exclusive (writeable n i t).1))

  -- What `ensure_connected` returns is a channel, and a transport with a socket, over which the test
  -- message came back.
  pub ensure_connected-IsWriteable :
      (fuel : ℕ) (chan_id i : Option ℕ) (drops exclusive : Bool) (t t' : Transport)
      → ensure_connected fuel chan_id drops exclusive t ≡ some (i, t')
      → IsWriteable (i, t')
  unfolding ensure_connected
  ensure_connected-IsWriteable fuel chan_id i drops exclusive t t' h = subst Answers h (
      if_cases Answers (is_set chan_id && not drops) (λ e. reused-Answers)
        (λ e. reconnect-Answers fuel 1 exclusive (w.connect 0 exclusive (dropped drops t))))
    where
      reused-Answers :
          Answers (reused fuel exclusive chan_id (writeable 0 chan_id (dropped drops t)))
      reused-Answers = elim (Bool-cases (writeable 0 chan_id (dropped drops t)).0) [
        | inl e ↦
            subst
              (λ b.
                Answers
                  (reused fuel exclusive chan_id (b, (writeable 0 chan_id (dropped drops t)).1)))
              (sym e) (tested-Answers 0 chan_id (dropped drops t) e)
        | inr e ↦
            subst
              (λ b.
                Answers
                  (reused fuel exclusive chan_id (b, (writeable 0 chan_id (dropped drops t)).1)))
              (sym e)
              (reconnect-Answers fuel 1 exclusive (
                w.connect 0 exclusive
                  (disconnect (writeable 0 chan_id (dropped drops t)).1 none true)))
      ]
