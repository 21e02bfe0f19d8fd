-- ===== src/Receiver/Replies.antt =====
-- TCPReceiver::send of src/tcp_receiver.cc: the ackno and the window.
use networkinglab.Base.{
  ℕ, ◌+◌, ◌-◌, ◌≤◌, ◌<◌, ◌^◌, min, ◌≡◌, refl, none, some, Bool, true, false, add64-eq, u32_mod,
  u64_mod, arith,
}
use networkinglab.Wrap.{Wrap32, wrap, unwrap}
use networkinglab.Wrap.Laws.{dist, unwrap-wrap}
use networkinglab.Message.{flag}
use networkinglab.Stream.{ByteStream}
use networkinglab.Stream.Invariant.{IsValid, HasRoom, available_capacity-eq}
use networkinglab.Receiver.{init, send, uint16_max}
use networkinglab.Receiver.Delivery.{synced}

-- The sequence number behind all that has come: the SYN, the bytes, and the FIN once it is closed.
abbrev pub next_wanted : ByteStream → ℕ
next_wanted w = w.bytes_pushed + 1 + flag w.is_closed

flag_le : (b : Bool) → flag b ≤ 1
flag_le true = omega arith
flag_le false = omega arith

-- On a valid stream whose counters do not come near 2^64, before the SYN nothing is acknowledged,
-- and the window is the room that the stream has left, up to 65535.
pub send_unsynced :
    (w : ByteStream)
    → IsValid w
    → HasRoom w
    → ((send init w).ackno ≡ none)
      × ((send init w).window_size ≡ min (w.capacity - w.bytes_buffered) uint16_max)
unfolding send init
send_unsynced w v r = (refl, rw (available_capacity-eq w v r) (ground arith))

-- After the SYN, with a zero point below 2^32, on a valid stream whose counters do not come near
-- 2^64, and with a checkpoint of at most 2^64 - 2^32 less than 2^31 away from the number wanted:
-- the ackno unwraps near the checkpoint to the number of the next byte that is wanted (behind the
-- FIN, once the stream is closed), and the window is the room left, up to 65535.
pub send-synced :
    (isn : Wrap32) (w : ByteStream) (checkpoint : ℕ)
    → isn < u32_mod
    → IsValid w
    → HasRoom w
    → w.bytes_pushed + 2 < u64_mod
    → checkpoint + u32_mod ≤ u64_mod
    → dist (next_wanted w) checkpoint < 2 ^ 31
    → (raw : Wrap32) × ((send (synced isn) w).ackno ≡ some raw)
      × (unwrap raw isn checkpoint ≡ next_wanted w)
      × ((send (synced isn) w).window_size ≡ min (w.capacity - w.bytes_buffered) uint16_max)
unfolding send
send-synced isn w c z v r b k near = (
  wrap (next_wanted w) isn,
  rw
      (
        add64-eq w.bytes_pushed 1 (omega arith),
        add64-eq (w.bytes_pushed + 1) (flag w.is_closed) (omega (arith, flag_le w.is_closed)),
      )
      refl,
  unwrap-wrap (next_wanted w) isn c z k near,
  rw (available_capacity-eq w v r) (ground arith),
)
