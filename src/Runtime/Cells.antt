-- ===== src/Runtime/Cells.antt =====
-- Numbers in place of cells and of names, for the tests.
use guage.Prelude.{ℕ, ◌≡◌, true, arith, ◌==◌}
use guage.Runtime.Refs.{CellOps}

pub equal_self : (c : ℕ) → (c == c) ≡ true
equal_self c = ground arith

instance abbrev pub nat_cells : CellOps ℕ
nat_cells = record { cell_equal = ◌==◌; equal_refl = equal_self }
