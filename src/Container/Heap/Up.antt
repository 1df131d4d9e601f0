-- ===== src/Container/Heap/Up.antt =====
-- Sifting up.
use guage.Prelude.{
  ℕ, zero, suc, ◌≤◌, ◌<◌, ◌≡◌, refl, ◌∙◌, ◌≢◌, inl, inr, some, List, arith, ltb, leb, ltb→lt,
  Bool-cases, length, set, length-set,
}
use guage.Container.Heap.{Entry, heap4_parent, move, key_at, sift_up_loop}
use guage.Container.Heap.Order.{Sifted, key_at-set, key_at-move, length-move, Sifted-move}

module _ {ℓ} {K C : Type ℓ} (rank : K → ℕ) where
  -- Only the edge above `i` may be out of order.
  pub record UpInv (v : List (Entry K C)) (i : ℕ) : Type ℓ where
    pub inside : i < length v
    pub edges :
        (c : ℕ) → 0 < c → c < length v → c ≢ i → key_at rank v (heap4_parent c) ≤ key_at rank v c
    pub bridged :
        (c : ℕ)
        → 0 < c
        → c < length v
        → heap4_parent c ≡ i
        → 0 < i
        → key_at rank v (heap4_parent i) ≤ key_at rank v c

  move-UpInv :
      (a : List (Entry K C)) (e : Entry K C) (pos : ℕ)
      → pos < length a
      → 0 < pos
      → rank e.key < key_at rank a (heap4_parent pos)
      → UpInv (set a pos e) pos
      → UpInv (set (move a (heap4_parent pos) pos) (heap4_parent pos) e) (heap4_parent pos)
  move-UpInv a e pos h p below v =
      let q = heap4_parent pos in
      let q_lt : q < length a = omega arith in
      let d : q ≢ pos = λ z. omega arith in
      let size : length (set (move a q pos) q e) ≡ length a =
        length-set (move a q pos) q e ∙ length-move rank a q pos q_lt in
      let size₀ : length (set a pos e) ≡ length a = length-set a pos e in
      record {
        inside = omega arith;
        edges = λ c r s t. ground (
          arith,
          key_at-move rank a q pos c e q_lt h d,
          key_at-move rank a q pos (heap4_parent c) e q_lt h d,
          key_at-set rank a pos c e h,
          key_at-set rank a pos (heap4_parent c) e h,
          key_at-set rank a pos q e h,
          v.edges c,
          v.bridged c,
        );
        bridged = λ c r s t u. ground (
          arith,
          key_at-move rank a q pos c e q_lt h d,
          key_at-move rank a q pos (heap4_parent q) e q_lt h d,
          key_at-set rank a pos c e h,
          key_at-set rank a pos q e h,
          key_at-set rank a pos (heap4_parent q) e h,
          v.edges c,
          v.edges q,
          v.bridged c,
        );
      }

  pub sift_up_loop-Sifted :
      (rounds : ℕ) (a : List (Entry K C)) (e : Entry K C) (pos : ℕ)
      → pos < rounds
      → pos < length a
      → UpInv (set a pos e) pos
      → (b : List (Entry K C)) × (sift_up_loop rank rounds a e pos ≡ some b)
        × Sifted rank (set a pos e) b
  unfolding sift_up_loop
  sift_up_loop-Sifted zero a e pos f h v = absurd (omega arith)
  sift_up_loop-Sifted (suc rounds) a e pos f h v = elim (Bool-cases (ltb 0 pos)) [
    | inr root ↦ (
      set a pos e,
      rw root refl,
      record {
        ordered = λ c p q. v.edges c p q (λ z. ground arith);
        size = refl;
        entries = λ q. refl;
      },
    )
    | inl p ↦ elim (Bool-cases (leb (key_at rank a (heap4_parent pos)) (rank e.key))) [
      | inl settled ↦ (
        set a pos e,
        rw (p, settled) refl,
        record {
          ordered = λ c r s. ground (
            arith,
            v.edges c,
            key_at-set rank a pos c e h,
            key_at-set rank a pos (heap4_parent c) e h,
          );
          size = refl;
          entries = λ q. refl;
        },
      )
      | inr below ↦
          let pos_lt : 0 < pos = ltb→lt 0 pos p in
          let q = heap4_parent pos in
          let q_lt : q < length a = omega arith in
          let (b, run, s) =
            sift_up_loop-Sifted rounds (move a q pos) e q (omega arith)
              (omega (arith, length-move rank a q pos q_lt))
              (move-UpInv a e pos h pos_lt (ground arith) v) in
          (b, rw (p, below) run, Sifted-move rank a b q pos e q_lt h (λ z. omega arith) s)
    ]
  ]
