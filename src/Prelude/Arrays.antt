-- ===== src/Prelude/Arrays.antt =====
-- A C array of a fixed size as a function from its indices; the code's bounds are checked where it
-- writes.
use Prim.Native.Nat.{ℕ}
use p.Prelude.Tests.{◌==◌, if◌then◌else◌}

abbrev pub write {ℓ} : {A : Type ℓ} → (ℕ → A) → ℕ → A → ℕ → A
write f i v j = if j == i then v else f j
