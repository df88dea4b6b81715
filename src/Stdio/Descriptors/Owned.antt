-- ===== src/Stdio/Descriptors/Owned.antt =====
-- Who owns the descriptors that are open: the proof.
use rs_io.Stdio.Descriptors.Program.{Program, hit}
use rs_io.Base.{arith, ℕ, ◌≡◌}

pub hit_refl : (v : ℕ) → hit v v ≡ 1
hit_refl v = ground arith
