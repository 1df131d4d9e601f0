-- ===== src/Container/Heap/Down.antt =====
-- Sifting down.
use guage.Prelude.{
  ℕ, zero, suc, ◌+◌, ◌-◌, ◌*◌, ◌^◌, ◌≤◌, ◌<◌, min, ℕ_discrete, ◌≡◌, refl, ◌∙◌, ◌≢◌, inl, inr, some,
  List, arith, ltb, leb, if◌then◌else◌, ltb→lt, Bool-cases, length, set, length-set, count,
}
use guage.Container.Heap.{
  Entry, heap4_parent, heap4_first_child, heap4_min_child, better, move, key_at, sift_down_loop,
}
use guage.Container.Heap.Order.{Sifted, key_at-set, key_at-move, length-move, Sifted-move}

module _ {ℓ} {K C : Type ℓ} (rank : K → ℕ) where
  -- `m` is one of the `count` places from `first`, and none of them has a lower key.
  record IsLeast (a : List (Entry K C)) (first count m : ℕ) : Type 0 where
    pub low : first ≤ m
    pub high : m < first + count
    pub least : (c : ℕ) → first ≤ c → c < first + count → key_at rank a m ≤ key_at rank a c

  -- After `k` tests the least of the first `k + 1` places is known.
  better_lem :
      (a : List (Entry K C)) (first count k best : ℕ)
      → 0 < k
      → IsLeast a first (min k count) best
      → IsLeast a first (min (k + 1) count) (better rank a first count k best)
  better_lem a first count k best h v = elim (Bool-cases (ltb k count)) [
    | inr stop ↦ rw stop (record {
      low = v.low;
      high = ground (arith, v.high);
      least = λ c p q. v.least c p (ground arith);
    })
    | inl go ↦
        let more : k < count = ltb→lt k count go in
        elim (Bool-cases (ltb (key_at rank a (first + k)) (key_at rank a best))) [
          | inl below ↦
              rw (go, below)
                (record {
                  low = omega arith;
                  high = omega arith;
                  least = λ c p q. elim (ℕ_discrete c (first + k)) [
                    | yes e ↦ rw e (omega arith)
                    | no e ↦ ground (arith, v.least c p (omega arith))
                  ];
                })
          | inr above ↦
              rw (go, above)
                (record {
                  low = v.low;
                  high = omega (arith, v.high);
                  least = λ c p q. elim (ℕ_discrete c (first + k)) [
                    | yes e ↦ rw e (ground arith)
                    | no e ↦ v.least c p (omega arith)
                  ];
                })
        ]
  ]

  min_child-IsLeast :
      (a : List (Entry K C)) (first count : ℕ)
      → 0 < count
      → count ≤ 4
      → IsLeast a first count (heap4_min_child rank a first count)
  unfolding heap4_min_child
  min_child-IsLeast a first count h k =
      let v₀ : IsLeast a first (min 1 count) first = record {
        low = omega arith;
        high = omega arith;
        least = λ c p q. let e : c ≡ first = omega arith in rw e (omega arith);
      } in
      let v₁ = better_lem a first count 1 first (omega arith) v₀ in
      let v₂ = better_lem a first count 2 _ (omega arith) v₁ in
      let v₃ = better_lem a first count 3 _ (omega arith) v₂ in
      let all : min 4 count ≡ count = omega arith in rw all at v₃

  -- Only the edges below `i` may be out of order.
  pub record DownInv (v : List (Entry K C)) (i : ℕ) : Type ℓ where
    pub edges :
        (c : ℕ)
        → 0 < c
        → c < length v
        → heap4_parent c ≢ i
        → key_at rank v (heap4_parent c) ≤ key_at rank v c
    pub bridged :
        (c : ℕ)
        → 0 < c
        → c < length v
        → heap4_parent c ≡ i
        → 0 < i
        → key_at rank v (heap4_parent i) ≤ key_at rank v c

  move-DownInv :
      (a : List (Entry K C)) (e : Entry K C) (pos m : ℕ)
      → pos < length a
      → m < length a
      → 0 < m
      → heap4_parent m ≡ pos
      → ((c : ℕ) → 0 < c → c < length a → heap4_parent c ≡ pos → key_at rank a m ≤ key_at rank a c)
      → key_at rank a m < rank e.key
      → DownInv (set a pos e) pos
      → DownInv (set (move a m pos) m e) m
  move-DownInv a e pos m h k p child least below v =
      let d : m ≢ pos = λ z. omega arith in
      let size : length (set (move a m pos) m e) ≡ length a =
        length-set (move a m pos) m e ∙ length-move rank a m pos k in
      let size₀ : length (set a pos e) ≡ length a = length-set a pos e in
      record {
        edges = λ c r s t. ground (
          arith,
          key_at-move rank a m pos c e k h d,
          key_at-move rank a m pos (heap4_parent c) e k h d,
          key_at-set rank a pos c e h,
          key_at-set rank a pos (heap4_parent c) e h,
          key_at-set rank a pos m e h,
          v.edges c,
          v.bridged m,
          least c,
        );
        bridged = λ c r s t u. ground (
          arith,
          key_at-move rank a m pos c e k h d,
          key_at-move rank a m pos pos e k h d,
          key_at-set rank a pos c e h,
          key_at-set rank a pos m e h,
          v.edges c,
        );
      }

  pub sift_down_loop-Sifted :
      (rounds : ℕ) (a : List (Entry K C)) (e : Entry K C) (pos : ℕ)
      → length a < pos + rounds
      → pos < length a
      → length a ≤ 2 ^ 30
      → DownInv (set a pos e) pos
      → (b : List (Entry K C)) × (sift_down_loop rank rounds a e pos ≡ some b)
        × Sifted rank (set a pos e) b
  unfolding sift_down_loop
  sift_down_loop-Sifted zero a e pos f h small v = absurd (omega arith)
  sift_down_loop-Sifted (suc rounds) a e pos f h small v =
      let size₀ : length (set a pos e) ≡ length a = length-set a pos e in
      let fc = heap4_first_child pos in
      let fc_eq : fc ≡ pos * 4 + 1 = omega arith in
      elim (Bool-cases (leb (length a) fc)) [
        | inl leaf ↦ (
          set a pos e,
          rw leaf refl,
          record {
            ordered = λ c p q. v.edges c p q (λ z. ground arith);
            size = refl;
            entries = λ q. refl;
          },
        )
        | inr inner ↦
            let n = if ltb 4 (length a - fc) then 4 else length a - fc in
            let n_pos : 0 < n = ground arith in
            let n_max : n ≤ 4 = ground arith in
            let s = min_child-IsLeast a fc n n_pos n_max in
            let m = heap4_min_child rank a fc n in
            let n_fits : fc + n ≤ length a = ground arith in
            let n_all : (c : ℕ) → 0 < c → c < length a → heap4_parent c ≡ pos → c < fc + n =
              λ c p q r. ground arith in
            let m_lt : m < length a = omega (arith, s.high) in
            let child : heap4_parent m ≡ pos = omega (arith, s.high, s.low) in
            let least : (c : ℕ)
                → 0 < c
                → c < length a
                → heap4_parent c ≡ pos
                → key_at rank a m ≤ key_at rank a c =
              λ c p q r. s.least c (omega arith) (n_all c p q r) in
            elim (Bool-cases (leb (rank e.key) (key_at rank a m))) [
              | inl settled ↦ (
                set a pos e,
                rw (inner, settled) refl,
                record {
                  ordered = λ c p q. ground (
                    arith,
                    v.edges c,
                    key_at-set rank a pos c e h,
                    key_at-set rank a pos (heap4_parent c) e h,
                    least c,
                  );
                  size = refl;
                  entries = λ q. refl;
                },
              )
              | inr below ↦
                  let (b, run, sifted) =
                    sift_down_loop-Sifted rounds (move a m pos) e m
                      (omega (arith, length-move rank a m pos m_lt, s.low))
                      (omega (arith, length-move rank a m pos m_lt))
                      (omega (arith, length-move rank a m pos m_lt))
                      (move-DownInv a e pos m h m_lt (omega (arith, s.low)) child least
                        (ground arith) v) in
                  (
                    b,
                    rw (inner, below) run,
                    Sifted-move rank a b m pos e m_lt h (λ z. omega (arith, s.low)) sifted,
                  )
            ]
      ]
