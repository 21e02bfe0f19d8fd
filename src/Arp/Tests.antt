-- ===== src/Arp/Tests.antt =====
-- Runs of util/arp_message.cc.
use networkinglab.Base.{◌≡◌, refl, true, runtime_error}
use networkinglab.Wire.{serializer}
use networkinglab.Arp.{no_message, opcode_reply, supported, serialize}

reply_supported : supported (record no_message { opcode = opcode_reply }) ≡ true
unfolding supported
reply_supported = refl

-- A message without an opcode is not serialized.
no_opcode : serialize no_message serializer ≡ runtime_error
unfolding serialize supported
no_opcode = refl
