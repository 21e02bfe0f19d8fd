-- ===== src/Minnow/Tests.antt =====
-- Runs of util/tcp_minnow_socket.cc over a TUN device, and the theorems at them.
use networkinglab.Base.{◌≡◌, refl, true, false, none, some, List, [], ◌∷◌, ◌++◌, length, ok, arith}
use networkinglab.Message.{TcpConfig, TcpSegment}
use networkinglab.Stream
use networkinglab.Stream.Invariant.{init-IsValid}
use networkinglab.Sender
use networkinglab.Sender.{available_window}
use networkinglab.Peer
use networkinglab.Peer.{TcpPeer}
use networkinglab.Descriptor.{done, failed, eagain}
use networkinglab.EventLoop
use networkinglab.EventLoop.{EventLoop}
use networkinglab.Adapter.{FdAdapterConfig, new_adapter}
use networkinglab.Minnow.{Minnow, Answers, collect_segments}
use networkinglab.Minnow.Running.{begin_connect, fresh, connecting}
use networkinglab.Minnow.Gathering.{Gathered}
use networkinglab.Minnow.Collecting.{CanPush, collect_segments-all}
use networkinglab.Minnow.Connecting.{syn_message, connect_begins}
use networkinglab.Minnow.Tunnel.{TunAdapter, tun_ops}

abbrev config : TcpConfig
config = record { rt_timeout = 1000; recv_capacity = 8; send_capacity = 8; fixed_isn = some 7 }

abbrev quiet : Answers
quiet = record {
  from_network = failed eagain;
  from_owner = failed eagain;
  to_owner = done 0;
  shut_owner = done 0;
  now = 0;
}

abbrev device : TunAdapter
device = record { adapter = new_adapter; answer = done 0; written = [] }

abbrev to_server : FdAdapterConfig
to_server = record new_adapter.cfg { destination = record { ip = 0x0a000002; port = 80 } }

connect_begins_example :
    (l : EventLoop (Minnow TunAdapter)) × (t : Minnow TunAdapter) × (seg : TcpSegment)
    × (begin_connect tun_ops config 0 to_server EventLoop.init (fresh device quiet) ≡ ok (l, t))
    × (length l.fd_rules ≡ 4)
    × (t.outgoing_segments ≡ seg ∷ [])
    × (seg.sender_message ≡ syn_message 7)
    × (seg.receiver_message.ackno ≡ none)
    × (t.adapter ≡ tun_ops.configure device to_server)
    × (connecting t ≡ true)
unfolding Sender.init
connect_begins_example = connect_begins tun_ops config 0 to_server device quiet

-- A peer that has heard a SYN, and has an answer to send.
abbrev answering : TcpPeer
answering = record (Peer.init config 0) { need_send = true; receiver = record { isn = some 30 } }

abbrev answering_socket : Minnow TunAdapter
answering_socket = record (fresh device quiet) { tcp = some answering }

answering-CanPush : CanPush answering
unfolding Peer.init Sender.init Stream.init
answering-CanPush = record {
  valid = init-IsValid 8;
  word = omega arith;
  window = omega arith;
  room = omega arith;
}

collect_segments-all_example :
    (q : TcpPeer) × (segs : List TcpSegment) × (collect_segments answering_socket
      ≡ ok (record answering_socket { tcp = some q; outgoing_segments = [] ++ segs }))
    × CanPush q
    × (q.sender.ready_to_send ≡ [])
    × (q.need_send ≡ false)
    × Gathered answering q segs
collect_segments-all_example =
    collect_segments-all answering_socket answering refl answering-CanPush
