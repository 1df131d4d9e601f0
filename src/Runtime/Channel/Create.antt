-- ===== src/Runtime/Channel/Create.antt =====
-- A new channel.
use guage.Prelude.{
  ℕ, ◌+◌, ◌^◌, ◌≤◌, ◌<◌, ◌≡◌, refl, ◌∙◌, false, none, some, [], ◌∷◌, ◌++◌, arith, leb, ◌==◌,
  if◌then◌else◌, length,
}
use guage.Runtime.Ring.{mailbox_init}
use guage.Runtime.Ring.Fifo.{init-Represents}
use guage.Runtime.Ring.Solo.{Represents}
use guage.Runtime.Channel.{
  Channel, Channels, next_pow2, max_channels, default_channel_capacity, channel_create,
}
use guage.Runtime.Channel.Power.{next_pow2-bounds}

-- What is asked for, the default in place of 0.
abbrev pub wanted : ℕ → ℕ
wanted capacity = if capacity == 0 then default_channel_capacity else capacity

capacity_init {ℓ} : (C : Type ℓ) (n : ℕ) → (mailbox_init {C = C} n).capacity ≡ n
unfolding mailbox_init
capacity_init C n = refl

module _ {ℓ} {C : Type ℓ} where
  ready : (n k : ℕ) → 0 < k → n ≡ 2 ^ k → Represents (mailbox_init {C = C} n) []
  ready n k pos e = rw e (init-Represents k pos)

  -- While fewer than 256 channels exist, channel_create for at most 2 ^ 31 messages, where 0 asks
  -- for 64, returns an open and empty channel; its ring, of a power of two of slots, has at least
  -- as many as asked for and at most twice as many.
  pub create-Represents :
      (g : Channels C) (capacity : ℕ)
      → length g.channels < max_channels
      → capacity ≤ 2 ^ 31
      → (c : Channel C) × (g' : Channels C) × (channel_create g capacity ≡ some (c, g'))
        × Represents c.ring []
        × (wanted capacity ≤ c.ring.capacity)
        × (c.ring.capacity ≤ wanted capacity + wanted capacity)
        × (c.closed ≡ false)
  unfolding channel_create
  create-Represents g capacity room small =
      let n = wanted capacity in
      let n_pos : 0 < n = ground arith in
      let n_small : n ≤ 2 ^ 31 = ground arith in
      let (k, k_pos, k_small, e, low, high) = next_pow2-bounds n n_pos n_small in
      let space : leb max_channels (length g.channels) ≡ false = ground arith in
      let c : Channel C = record {
        id = g.next_channel_id;
        closed = false;
        ring = mailbox_init (next_pow2 n);
        recv_waiter = none;
        send_waiter = none;
      } in
      let g' : Channels C = record {
        channels = g.channels ++ (c ∷ []);
        next_channel_id = g.next_channel_id + 1;
      } in
      let size = capacity_init C (next_pow2 n) ∙ e in
      (
        c,
        g',
        rw space refl,
        ready (next_pow2 n) k k_pos e,
        omega (arith, size),
        omega (arith, size),
        refl,
      )
