-- ===== src/Tuntap/Pending.antt =====
-- send_pending of util/tuntap_adapter.cc.
use networkinglab.Base.{suc, ◌+◌, ◌≡◌, refl, ap, ◌∙◌, List, [], ◌∷◌, map, length, ok, map_ok, arith}
use networkinglab.Ethernet.{EthernetFrame}
use networkinglab.Interface.{NetworkInterface, maybe_send}
use networkinglab.Tuntap.{EthernetAdapter, frame_strings, send_loop, send_pending}

-- The interface with other frames that are ready.
abbrev with_ready : NetworkInterface → List EthernetFrame → NetworkInterface
with_ready i frames = record i { ready_to_send = frames }

send_loop-all :
    (i : NetworkInterface) (frames : List EthernetFrame)
    → send_loop (suc (length frames)) (with_ready i frames)
      ≡ ok (map frame_strings frames, with_ready i [])
unfolding send_loop maybe_send
send_loop-all i [] = refl
send_loop-all i (f ∷ frames) = rw (send_loop-all i frames) refl

-- send_pending comes to an end: it has written all frames that were ready, each once and in order,
-- and leaves none; the rest of the adapter is as it was.
pub send_pending-all :
    (e : EthernetAdapter)
    → send_pending e
      ≡ ok (
        map frame_strings e.interface.ready_to_send,
        record e { interface = record e.interface { ready_to_send = [] } },
      )
unfolding send_pending
send_pending-all e =
    let frames = e.interface.ready_to_send in
    let fuel : length frames + 1 ≡ suc (length frames) = omega arith in
    ap (λ n. map_ok (λ r. (r.0, record e { interface = r.1 })) (send_loop n e.interface)) fuel
    ∙ rw (send_loop-all e.interface frames) refl
