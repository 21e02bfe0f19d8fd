-- ===== src/Tuntap/Tests.antt =====
-- Runs of util/tuntap_adapter.cc and util/lossy_fd_adapter.hh, and the theorem at them.
use networkinglab.Base.{
  ◌≡◌, refl, true, false, some, ℕ, List, [], ◌∷◌, map, length, concat, ok, arith,
}
use networkinglab.Message.{TcpSegment}
use networkinglab.Adapter.{Address, FdAdapter, new_adapter}
use networkinglab.Adapter.Carried.{IsAdapter}
use networkinglab.Segment.{no_segment}
use networkinglab.Segment.RoundTrip.{IsSegment}
use networkinglab.Tuntap.{scatter, tun_read, tun_write, should_drop}
use networkinglab.Descriptor.{done, fresh, register_read, read_vector, widen_last}
use networkinglab.Tuntap.Dividing.{read_vector-divides}
use networkinglab.Tuntap.Crossing.{tun_read-tun_write}

-- A client at 10.0.0.1, port 1024, and a server at 10.0.0.2, port 80.
abbrev client_address : Address
client_address = record { ip = 0x0a000001; port = 1024 }

abbrev server_address : Address
server_address = record { ip = 0x0a000002; port = 80 }

-- The client loses what it reads if the random number is below ten.
abbrev client : FdAdapter
client = record new_adapter {
  cfg = record {
    source = client_address;
    destination = server_address;
    loss_rate_dn = 10;
    loss_rate_up = 0;
  };
}

abbrev server : FdAdapter
server = record new_adapter {
  cfg = record {
    source = server_address;
    destination = client_address;
    loss_rate_dn = 0;
    loss_rate_up = 0;
  };
}

-- A FIN with two bytes.
abbrev segment : TcpSegment
segment = record no_segment {
  sender_message = record { seqno = 7; syn = false; payload = 5 ∷ 6 ∷ []; fin = true };
}

scatters : scatter (2 ∷ 3 ∷ []) (1 ∷ 2 ∷ 3 ∷ []) ≡ (1 ∷ 2 ∷ []) ∷ (3 ∷ []) ∷ []
unfolding scatter
scatters = refl

drops : should_drop client false 65545 ≡ true
unfolding should_drop
drops = refl

never_drops : should_drop client true 0 ≡ false
unfolding should_drop
never_drops = refl

segment-IsSegment : IsSegment segment
segment-IsSegment = record {
  src_port_fits = omega arith;
  dst_port_fits = omega arith;
  seqno_fits = omega arith;
  ackno_fits = omega arith;
  window_fits = omega arith;
  payload_bytes = (omega arith, (omega arith, tt));
  payload_fits = omega arith;
}

client-IsAdapter : IsAdapter client
client-IsAdapter = record {
  source_ip = omega arith;
  source_port = omega arith;
  destination_ip = omega arith;
  destination_port = omega arith;
}

tun_read-tun_write_example :
    (strs : List (List ℕ)) × (sent : TcpSegment) × (tun_write client segment ≡ ok (strs, sent))
    × (tun_read server (concat strs) ≡ ok (some sent, server))
    × (sent.sender_message ≡ segment.sender_message)
    × (sent.receiver_message ≡ segment.receiver_message)
    × (sent.reset ≡ segment.reset)
tun_read-tun_write_example =
    tun_read-tun_write client segment client-IsAdapter segment-IsSegment server (omega arith) refl
      refl refl

read_vector-divides_example :
    (read_vector (fresh 3) ((0 ∷ 0 ∷ []) ∷ [] ∷ []) (done (1 ∷ 2 ∷ 3 ∷ []))
      ≡ ok (
        scatter (map length (widen_last ((0 ∷ 0 ∷ []) ∷ [] ∷ []))) (1 ∷ 2 ∷ 3 ∷ []),
        register_read (fresh 3),
      ))
    × (concat (scatter (map length (widen_last ((0 ∷ 0 ∷ []) ∷ [] ∷ []))) (1 ∷ 2 ∷ 3 ∷ []))
        ≡ 1 ∷ 2 ∷ 3 ∷ [])
unfolding widen_last
read_vector-divides_example =
    read_vector-divides (fresh 3) (0 ∷ 0 ∷ []) ([] ∷ []) (1 ∷ 2 ∷ 3 ∷ []) (omega arith)
