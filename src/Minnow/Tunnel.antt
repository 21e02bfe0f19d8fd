-- ===== src/Minnow/Tunnel.antt =====
-- A TCPMinnowSocket over the adapter of util/tuntap_adapter.cc for a TUN device.
use networkinglab.Base.{ℕ, List, [], ◌∷◌, ◌++◌, replicate, ok, ◌>>=◌, map_ok}
use networkinglab.Ipv4.{header_length}
use networkinglab.Interface.{parse_ip}
use networkinglab.Descriptor.{Answer, read_vector, write_vector}
use networkinglab.Adapter.{FdAdapter, FdAdapterConfig, set_listening}
use networkinglab.Tuntap.{unwrap_parsed, tun_write}
use networkinglab.Minnow.{AdapterOps}

-- TCPOverIPv4OverTunFdAdapter, what its device answers to a write, and what has been written.
pub record TunAdapter : Type 0 where
  pub adapter : FdAdapter
  pub answer : Answer ℕ
  pub written : List (List (List ℕ))

-- The operations; tick is that of FdAdapterBase, which does nothing.
unfoldable pub tun_ops : AdapterOps TunAdapter FdAdapterConfig
tun_ops = record {
  read = λ a d from_device. read_vector d (replicate header_length 0 ∷ [] ∷ []) from_device >>= λ r.
      parse_ip r.0 >>= unwrap_parsed a.adapter >>= λ t. ok (t.0, record a { adapter = t.1 }, r.1);
  write = λ a d seg. tun_write a.adapter seg >>= λ r.
      map_ok (λ n. (record a { written = a.written ++ (r.0 ∷ []) }, n.1))
        (write_vector d r.0 a.answer);
  tick = λ a d ms. ok (a, d);
  configure = λ a c. record a { adapter = record a.adapter { cfg = c } };
  set_listening = λ a l. record a { adapter = set_listening a.adapter l };
}
