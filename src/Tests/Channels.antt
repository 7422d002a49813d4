-- ===== src/Tests/Channels.antt =====
-- Two channels, and messages over them.
use aiotinyrpc.Base.{ℕ, ◌≡◌, refl, true, false, none, some, [], ◌∷◌, arith}
use aiotinyrpc.Channels.{Channel, ChannelManager, send_message, awaits, await_reply}
use aiotinyrpc.Channels.Ids.{IsManaged, gets, adds, perform_all, perform_all-IsManaged}
use aiotinyrpc.Channels.Exchange.{all_for, deliver_all, await_reply-first}

abbrev channel : ℕ → Channel ℕ
channel i = record { id = i; exclusive = false; in_use = false; q = [] }

abbrev two : ChannelManager ℕ
two = record { channels = channel 0 ∷ channel 1 ∷ []; channel_count = 2 }

two-IsManaged : IsManaged two
two-IsManaged = omega arith

perform_all-IsManaged_example : IsManaged (perform_all two (gets none false ∷ adds true ∷ []))
perform_all-IsManaged_example =
    perform_all-IsManaged two (gets none false ∷ adds true ∷ []) two-IsManaged

abbrev waiting : ChannelManager ℕ
waiting = record two { channels = record (channel 0) { in_use = true } ∷ channel 1 ∷ [] }

sent : send_message two true none ≡ (awaits 0, waiting)
unfolding send_message
sent = refl

await_reply-first_example :
    (await_reply (deliver_all waiting ((1, 5) ∷ (0, 6) ∷ (0, 7) ∷ [])) 0).0 ≡ some 6
unfolding all_for
await_reply-first_example =
    await_reply-first two waiting none 0 ((1, 5) ∷ (0, 6) ∷ (0, 7) ∷ []) two-IsManaged sent
