-- ===== src/Runtime/Channel.antt =====
-- Channels (bootstrap/channel.c), with no other thread at work on them: the rings of Ring.antt, with
-- a closed flag, one waiting actor for each side, and the table of channels. `calloc` and
-- `aligned_alloc` return memory; traces and reference counts are left out. The home schedulers of
-- actors exist. `none` as an outcome: the steps of the loop have run out.
pub mod Power
pub mod Create
pub mod Laws
pub mod Closed
mod Tests
use guage.Prelude.{
  ℕ, ◌+◌, ◌-◌, ◌/◌, ◌%◌, ◌^◌, Bool, true, false, not, Option, none, some, List, [], ◌∷◌, ◌++◌, ltb,
  leb, ◌==◌, if◌then◌else◌, length, find,
}
use guage.Prelude.{bit_or}
use guage.Runtime.Mailbox.{mailbox_destroy}
use guage.Runtime.Ring.{Ring, Call, send_load, sent, recv_load, received, solo, mailbox_init}

pub record Channel {ℓ} (C : Type ℓ) : Type ℓ where
  pub id : ℕ
  pub closed : Bool
  pub ring : Ring C
  -- `-1` is `none`.
  pub recv_waiter : Option ℕ
  pub send_waiter : Option ℕ

-- What `channel_wake_actor` reads and writes: which actors exist and live, their wait flags, and the
-- ids put in the queues of their home schedulers, in order.
pub record Actors : Type 0 where
  pub alive : ℕ → Bool
  pub wait_flag : ℕ → Bool
  pub ready : List ℕ

-- The globals of channel.c.
pub record Channels {ℓ} (C : Type ℓ) : Type ℓ where
  pub channels : List (Channel C)
  pub next_channel_id : ℕ

abbrev pub max_channels : ℕ
max_channels = 256

abbrev pub default_channel_capacity : ℕ
default_channel_capacity = 64

-- On a `uint32_t`.
unfoldable pub next_pow2 : ℕ → ℕ
next_pow2 v =
    let v = (v + (2 ^ 32 - 1)) % 2 ^ 32 in
    let v = bit_or v (v / 2 ^ 1) in
    let v = bit_or v (v / 2 ^ 2) in
    let v = bit_or v (v / 2 ^ 4) in
    let v = bit_or v (v / 2 ^ 8) in
    let v = bit_or v (v / 2 ^ 16) in let v = (v + 1) % 2 ^ 32 in if ltb v 2 then 2 else v

unfoldable pub channel_wake_actor : Actors → Option ℕ → Actors
channel_wake_actor w waiter = elim waiter [
  | none ↦ w
  | some id ↦
      if not (w.alive id)
      then w
      else if w.wait_flag id
      then record w {
        wait_flag = λ other. if other == id then false else w.wait_flag other;
        ready = w.ready ++ (id ∷ []);
      }
      else w
]

-- The accesses of one call that meets no other.
abbrev pub accesses : ℕ
accesses = 7

module _ {ℓ} {C : Type ℓ} where
  -- A capacity that is not positive is 0 here.
  unfoldable pub channel_create : Channels C → ℕ → Option (Channel C × Channels C)
  unfolding next_pow2 mailbox_init
  channel_create g capacity =
      let cap = next_pow2 (if capacity == 0 then default_channel_capacity else capacity) in
      let chan : Channel C = record {
        id = g.next_channel_id;
        closed = false;
        ring = mailbox_init cap;
        recv_waiter = none;
        send_waiter = none;
      } in
      if leb max_channels (length g.channels)
      then none
      else some (
        chan,
        record { channels = g.channels ++ (chan ∷ []); next_channel_id = g.next_channel_id + 1 },
      )

  unfoldable pub channel_close : Channel C → Actors → Channel C × Actors
  unfolding channel_wake_actor
  channel_close c w = (
    record c { closed = true; recv_waiter = none; send_waiter = none },
    channel_wake_actor (channel_wake_actor w c.recv_waiter) c.send_waiter,
  )

  -- After the loop of `channel_try_send`.
  abbrev pub settle_send : Channel C → Actors → Ring C → Call C → Bool × Channel C × Actors
  settle_send c w r (sent true) =
      (true, record c { ring = r; recv_waiter = none }, channel_wake_actor w c.recv_waiter)
  settle_send c w r call = (false, record c { ring = r }, w)

  unfoldable pub channel_try_send : Channel C → Actors → C → Option (Bool × Channel C × Actors)
  unfolding channel_wake_actor
  channel_try_send c w value =
      if c.closed then some (false, c, w) else elim (solo accesses c.ring (send_load value)) [
        | none ↦ none
        | some end ↦ some (settle_send c w end.0 end.1)
      ]

  -- After the loop of `channel_try_recv`. `none` as the value is NULL.
  abbrev pub settle_recv : Channel C → Actors → Ring C → Call C → Option C × Channel C × Actors
  settle_recv c w r (received (some x)) =
      (some x, record c { ring = r; send_waiter = none }, channel_wake_actor w c.send_waiter)
  settle_recv c w r call = (none, record c { ring = r }, w)

  unfoldable pub channel_try_recv : Channel C → Actors → Option (Option C × Channel C × Actors)
  unfolding channel_wake_actor
  channel_try_recv c w = elim (solo accesses c.ring recv_load) [
    | none ↦ none
    | some end ↦ some (settle_recv c w end.0 end.1)
  ]

  unfoldable pub channel_lookup : Channels C → ℕ → Option (Channel C)
  channel_lookup g id = find (λ c. c.id == id) g.channels

  -- The values that are released.
  abbrev pub channel_destroy : Channel C → List C
  channel_destroy c = mailbox_destroy c.ring

  abbrev pub destroy_all : List (Channel C) → List C
  destroy_all [] = []
  destroy_all (c ∷ cs) = channel_destroy c ++ destroy_all cs

  abbrev pub channel_reset_all : Channels C → List C × Channels C
  channel_reset_all g = (destroy_all g.channels, record { channels = []; next_channel_id = 1 })
