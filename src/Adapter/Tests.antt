-- ===== src/Adapter/Tests.antt =====
-- Runs of util/tcp_over_ip.cc, and the theorems at them.
use networkinglab.Base.{◌≡◌, refl, true, false, none, [], ◌∷◌, arith}
use networkinglab.Message.{TcpSegment}
use networkinglab.Segment.{no_segment}
use networkinglab.Segment.RoundTrip.{IsSegment}
use networkinglab.Ipv4.{new_header}
use networkinglab.Adapter.{Address, FdAdapter, new_adapter, is_ours, accept}
use networkinglab.Adapter.Carried.{IsAdapter}

-- A client at 10.0.0.1, port 1024, and a server at 10.0.0.2, port 80.
abbrev client_address : Address
client_address = record { ip = 0x0a000001; port = 1024 }

abbrev server_address : Address
server_address = record { ip = 0x0a000002; port = 80 }

abbrev client : FdAdapter
client = record new_adapter {
  cfg = record {
    source = client_address;
    destination = server_address;
    loss_rate_dn = 0;
    loss_rate_up = 0;
  };
}

abbrev server : FdAdapter
server = record new_adapter {
  cfg = record {
    source = server_address;
    destination = client_address;
    loss_rate_dn = 0;
    loss_rate_up = 0;
  };
}

abbrev listener : FdAdapter
listener = record {
  cfg = record {
    source = record { ip = 0; port = 80 };
    destination = record { ip = 0; port = 0 };
    loss_rate_dn = 0;
    loss_rate_up = 0;
  };
  listen = true;
}

-- A SYN with one byte.
abbrev segment : TcpSegment
segment = record no_segment {
  sender_message = record { seqno = 7; syn = true; payload = 5 ∷ []; fin = false };
}

segment-IsSegment : IsSegment segment
segment-IsSegment = record {
  src_port_fits = omega arith;
  dst_port_fits = omega arith;
  seqno_fits = omega arith;
  ackno_fits = omega arith;
  window_fits = omega arith;
  payload_bytes = (omega arith, tt);
  payload_fits = omega arith;
}

client-IsAdapter : IsAdapter client
client-IsAdapter = record {
  source_ip = omega arith;
  source_port = omega arith;
  destination_ip = omega arith;
  destination_port = omega arith;
}

not_ours : is_ours server new_header ≡ false
unfolding is_ours
not_ours = refl

-- A listening end takes no segment without a SYN.
no_syn :
    accept listener new_header
      (record no_segment { udinfo = record { src_port = 1; dst_port = 80; cksum = 0 } })
    ≡ (none, listener)
unfolding accept
no_syn = refl
