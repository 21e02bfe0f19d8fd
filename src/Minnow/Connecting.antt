-- ===== src/Minnow/Connecting.antt =====
-- connect of util/tcp_minnow_socket.cc, as far as its loop: what it has sent by then.
use networkinglab.Base.{◌≡◌, refl, true, false, none, some, [], ◌∷◌, length, add64, sub64, ok}
use networkinglab.Wrap.{Wrap32, wrap}
use networkinglab.Message.{TcpConfig, TcpSegment, TcpSenderMessage, sequence_length}
use networkinglab.Stream
use networkinglab.Stream.{ByteStream, read, read_loop, is_finished}
use networkinglab.Sender
use networkinglab.Sender.{
  push_loop, synchronize, fill, finish, emit, conclude, maybe_send, pop_front,
  sequence_numbers_in_flight,
}
use networkinglab.Receiver
use networkinglab.Peer
use networkinglab.Reassembler
use networkinglab.Peer.{TcpPeer}
use networkinglab.EventLoop
use networkinglab.EventLoop.{EventLoop, add_named}
use networkinglab.Minnow.{AdapterOps, Answers, Minnow, collect_segments, collect_loop}
use networkinglab.Minnow.Running.{initialize_tcp, add_rules, begin_connect, fresh, connecting}

-- The first segment: a SYN alone, with the number of the zero point.
abbrev pub syn_message : Wrap32 → TcpSenderMessage
syn_message isn = record { seqno = wrap 0 isn; syn = true; payload = []; fin = false }

-- The peer after its first push.
pushed : TcpConfig → Wrap32 → TcpPeer
pushed config random =
    let p = Peer.init config random in
    let m = syn_message (Sender.init config.rt_timeout config.fixed_isn random).isn in
    record p {
      sender = record p.sender {
        syn = true;
        seqnums_sent = 1;
        seqnums_in_flight = 1;
        outstanding = m ∷ [];
        ready_to_send = m ∷ [];
      };
    }

push-pushed :
    (config : TcpConfig) (random : Wrap32)
    → Peer.push (Peer.init config random) ≡ ok (pushed config random)
unfolding pushed Peer.push Peer.init Sender.init Sender.push push_loop synchronize fill finish emit
    conclude read read_loop Stream.init is_finished sequence_length add64 sub64
push-pushed config random = refl

-- The peer after its segment has been collected.
collected : TcpConfig → Wrap32 → TcpPeer
collected config random =
    let p = pushed config random in record p { sender = record p.sender { ready_to_send = [] } }

syn_segment : TcpConfig → Wrap32 → TcpSegment
syn_segment config random =
    Peer.wrap_segment (collected config random)
      (Receiver.send Receiver.init (Stream.init config.recv_capacity))
      (syn_message (Sender.init config.rt_timeout config.fixed_isn random).isn)

collect-syn :
    (config : TcpConfig) (random : Wrap32)
    → collect_loop 3 (pushed config random) []
      ≡ ok (collected config random, syn_segment config random ∷ [])
unfolding collect_loop pushed collected syn_segment Peer.maybe_send Peer.release Peer.choose_message
    Peer.wrap_segment Peer.init Receiver.send Receiver.init Sender.init maybe_send pop_front
collect-syn config random = refl

collect_segments-pushed :
    {A : Type 0} (config : TcpConfig) (random : Wrap32) (adapter : A) (answers : Answers)
    → collect_segments (record (fresh adapter answers) { tcp = some (pushed config random) })
      ≡ ok (record (fresh adapter answers) {
        tcp = some (collected config random);
        outgoing_segments = syn_segment config random ∷ [];
      })
unfolding collect_segments pushed collected syn_segment Peer.init Sender.init Receiver.init
    Reassembler.init Stream.init wrap Peer.wrap_segment
collect_segments-pushed config random adapter answers = rw (collect-syn config random) refl

four_rules :
    {A C : Type 0} (ops : AdapterOps A C)
    → (l : EventLoop (Minnow A)) × (add_rules ops EventLoop.init ≡ ok l) × (length l.fd_rules ≡ 4)
unfolding add_rules add_named EventLoop.init
four_rules ops = (_, refl, refl)

-- connect on a new socket, with any configuration and any adapter, does not throw before its loop:
-- it has four rules, the adapter has its configuration, and one segment waits, a SYN without
-- payload, FIN and ackno that has the number of the zero point; the loop goes on.
pub connect_begins :
    {A C : Type 0} (ops : AdapterOps A C) (c_tcp : TcpConfig) (random : Wrap32) (c_ad : C)
    (adapter : A) (answers : Answers)
    → let isn = (Sender.init c_tcp.rt_timeout c_tcp.fixed_isn random).isn in
      (l : EventLoop (Minnow A)) × (t : Minnow A) × (seg : TcpSegment) × (begin_connect ops c_tcp
          random c_ad EventLoop.init
          (fresh adapter answers)
        ≡ ok (l, t))
      × (length l.fd_rules ≡ 4)
      × (t.outgoing_segments ≡ seg ∷ [])
      × (seg.sender_message ≡ syn_message isn)
      × (seg.receiver_message.ackno ≡ none)
      × (t.adapter ≡ ops.configure adapter c_ad)
      × (connecting t ≡ true)
unfolding begin_connect initialize_tcp syn_segment collected pushed Peer.wrap_segment Receiver.send
    Receiver.init sequence_numbers_in_flight
connect_begins ops c_tcp random c_ad adapter answers =
    let (l, e, n) = four_rules ops in
    (
      l,
      record (fresh adapter answers) {
        tcp = some (collected c_tcp random);
        adapter = ops.configure adapter c_ad;
        outgoing_segments = syn_segment c_tcp random ∷ [];
      },
      syn_segment c_tcp random,
      rw
          (
            e,
            push-pushed c_tcp random,
            collect_segments-pushed c_tcp random (ops.configure adapter c_ad) answers,
          )
          refl,
      n,
      refl,
      refl,
      refl,
      refl,
      refl,
    )
