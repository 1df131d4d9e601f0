-- ===== src/Container/Buffer/Tests.antt =====
-- A full block of 64 bytes.
use guage.Prelude.{ℕ, refl, List, arith, replicate}
use guage.Container.Buffer.{Buffer}
use guage.Container.Buffer.Laws.{IsBufferOf}

abbrev block : Buffer
block = record { bytes = replicate 64 7; size = 64; capacity = 64 }

abbrev content : List ℕ
content = replicate 64 7

block-IsBufferOf : IsBufferOf block content
block-IsBufferOf = record {
  width = refl;
  counted = refl;
  fits = omega arith;
  least = omega arith;
  content = refl;
}
