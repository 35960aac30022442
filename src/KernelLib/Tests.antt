-- ===== src/KernelLib/Tests.antt =====
-- `memset` and `memcpy` at concrete inputs.
use so_realtime.Prelude.{refl, ◌≡◌}
use so_realtime.KernelLib.{memset}

memset_low_byte : memset (λ p. 7) 100 260 8 103 ≡ 4
unfolding memset
memset_low_byte = refl
