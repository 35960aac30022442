-- ===== src/Loader.antt =====
-- Kernel/moduleLoader.c: the modules behind the kernel's image are copied to their places. What is printed
-- meanwhile is left out.
use so_realtime.Prelude.{ℕ, zero, suc, ◌+◌, List, [], ◌∷◌, Outcome, done, fault}
use so_realtime.KernelLib.{Bytes, read_word, memcpy}

-- The word, and the address behind it.
unfoldable pub read_uint32 : Bytes → ℕ → ℕ × ℕ
unfolding read_word
read_uint32 m address = (read_word m address, address + 4)

-- The memory, and the address behind the module.
unfoldable pub load_module : ℕ → ℕ → Bytes → Bytes × ℕ
unfolding read_uint32 memcpy
load_module module_start target m =
    let (size, start) = read_uint32 m module_start in (memcpy m target start size, start + size)

-- The loop of `loadModules`, for the modules left and the targets of these.
unfoldable pub load_from : ℕ → List ℕ → ℕ → Bytes → Outcome (Bytes × ℕ)
unfolding load_module
load_from zero targets current m = done (m, current)
load_from (suc n) [] current m = fault
load_from (suc n) (target ∷ targets) current m =
    let (m', next) = load_module current target m in load_from n targets next m'

unfoldable pub load_modules : ℕ → List ℕ → Bytes → Outcome (Bytes × ℕ)
unfolding load_from read_uint32
load_modules payload_start targets m =
    let (count, current) = read_uint32 m payload_start in load_from count targets current m
