-- ===== src/Packer/Tests.antt =====
-- An image at a concrete input.
use so_realtime.Prelude.{ℕ, ◌≡◌, refl, List, [], ◌∷◌, arith, Ensures, done, some, none, true, ◌>>=◌}
use so_realtime.KernelLib.{Bytes}
use so_realtime.Packer.{build_image, pack, check_files}
use so_realtime.Packer.Loaded.{Shows, Loaded}
use so_realtime.Packer.Boot.{load_image, load_modules-build_image}

abbrev modules : List (List ℕ)
modules = (1 ∷ 2 ∷ []) ∷ (3 ∷ []) ∷ []

abbrev memory : Bytes
memory q = 0

pack_unreadable : pack (some (1 ∷ []) ∷ none ∷ []) true ≡ done (1, none)
unfolding pack check_files
pack_unreadable = refl

load_modules-build_image_example :
    Ensures
      (λ (r : Bytes × ℕ). Shows r.0 100 (7 ∷ 8 ∷ []) × Loaded r.0 (200 ∷ 300 ∷ []) modules)
      (build_image (7 ∷ 8 ∷ []) modules (some []) >>= load_image 100 2 (200 ∷ 300 ∷ []) memory)
load_modules-build_image_example =
    load_modules-build_image (7 ∷ 8 ∷ []) modules (200 ∷ 300 ∷ []) 100 memory (λ q. omega arith)
      (omega arith) (omega arith) (omega arith) (omega arith)
