-- ===== src/Checksum/Tests.antt =====
-- Runs of util/checksum.hh, and the theorem at them.
use networkinglab.Base.{◌≡◌, refl, [], ◌∷◌}
use networkinglab.Checksum.{init, add_byte, add, value}

odd_bytes : value (add (init 0) (1 ∷ 2 ∷ 3 ∷ [])) ≡ 0xfbfd
unfolding value add add_byte
odd_bytes = refl
