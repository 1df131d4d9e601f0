-- ===== src/Runtime/Channel/Laws.antt =====
-- A channel is a bounded queue with a closed flag; who is woken, and when.
use guage.Prelude.{
  ℕ, ◌+◌, ◌<◌, ◌≡◌, refl, ◌∙◌, ◌⊎◌, inl, inr, Bool, true, false, Option, none, some, List, [], ◌∷◌,
  ◌++◌, arith, leb, ◌==◌, if◌then◌else◌, Bool-cases, length, find, All, All-append,
}
use guage.Runtime.Ring.{mailbox_init, Ring, send_load, sent, solo}
use guage.Runtime.Ring.Solo.{Represents}
use guage.Runtime.Ring.Queue.{offer, poll, IsRoomy, solo-offer, solo-poll}
use guage.Runtime.Channel.{
  next_pow2, default_channel_capacity, Channel, Actors, Channels, max_channels, channel_wake_actor,
  settle_send, channel_create, channel_close, channel_try_send, channel_try_recv, channel_lookup,
}

-- A wake reaches an actor that lives.
wake_lem :
    (w : Actors) (id : ℕ)
    → w.alive id ≡ true
    → (channel_wake_actor w (some id)).wait_flag id ≡ false
unfolding channel_wake_actor
wake_lem w id live = elim (Bool-cases (w.wait_flag id)) [
  | inl waits ↦ rw (live, waits) (ground arith)
  | inr awake ↦ rw (live, awake) awake
]

-- No wake puts an actor to sleep.
wake-asleep :
    (w : Actors) (waiter : Option ℕ) (id : ℕ)
    → w.wait_flag id ≡ false
    → (channel_wake_actor w waiter).wait_flag id ≡ false
unfolding channel_wake_actor
wake-asleep w none id h = h
wake-asleep w (some other) id h = ground (arith, h)

wake-alive :
    (w : Actors) (waiter : Option ℕ) (id : ℕ) → (channel_wake_actor w waiter).alive id ≡ w.alive id
unfolding channel_wake_actor
wake-alive w none id = refl
wake-alive w (some other) id = ground arith

module _ {ℓ} {C : Type ℓ} where
  -- A closed channel refuses what is sent.
  abbrev pub offer_open : Channel C → List C → C → Bool × List C
  offer_open c q value = if c.closed then (false, q) else offer c.ring.capacity q value

  -- With no other thread at work, on a channel whose ring represents the queue q, with positions
  -- below 2 ^ 63 and fewer than 2 ^ 31 slots, channel_try_send returns true, appends the value to
  -- q, and wakes and clears the waiting receiver, unless the channel is closed or full: then it
  -- returns false, wakes nobody and keeps q and the waiter.
  pub try_send-offers :
      (c : Channel C) (w : Actors) (q : List C) (value : C)
      → Represents c.ring q
      → IsRoomy c.ring
      → (c' : Channel C) × (channel_try_send c w value
          ≡ some (
            (offer_open c q value).0,
            c',
            if (offer_open c q value).0 then channel_wake_actor w c.recv_waiter else w,
          ))
        × Represents c'.ring (offer_open c q value).1
        × (c'.recv_waiter ≡ (if (offer_open c q value).0 then none else c.recv_waiter))
  unfolding channel_try_send
  try_send-offers c w q value h roomy = by_closed c.closed
    where
      by_answer :
          (r : Ring C) (o : Bool × List C)
          → solo 7 c.ring (send_load value) ≡ some (r, sent o.0)
          → Represents r o.1
          → (c' : Channel C) × (elim (solo 7 c.ring (send_load value)) [
            | none ↦ none
            | some end ↦ some (settle_send c w end.0 end.1)
          ]
              ≡ some (o.0, c', if o.0 then channel_wake_actor w c.recv_waiter else w))
            × Represents c'.ring o.1
            × (c'.recv_waiter ≡ (if o.0 then none else c.recv_waiter))
      by_answer r (true, q') e k = (record c { ring = r; recv_waiter = none }, rw e refl, k, refl)
      by_answer r (false, q') e k = (record c { ring = r }, rw e refl, k, refl)

      by_closed :
          (b : Bool)
          → (c' : Channel C) × ((if b
                then some (false, c, w)
                else elim (solo 7 c.ring (send_load value)) [
                  | none ↦ none
                  | some end ↦ some (settle_send c w end.0 end.1)
                ])
              ≡ some (
                (if b then (false, q) else offer c.ring.capacity q value).0,
                c',
                if (if b then (false, q) else offer c.ring.capacity q value).0
                    then channel_wake_actor w c.recv_waiter
                    else w,
              ))
            × Represents c'.ring (if b then (false, q) else offer c.ring.capacity q value).1
            × (c'.recv_waiter ≡ (
                if (if b then (false, q) else offer c.ring.capacity q value).0
                then none
                else c.recv_waiter))
      by_closed true = (c, refl, h, refl)
      by_closed false =
          let (r, e, k) = solo-offer 0 c.ring q value h roomy in
          by_answer r (offer c.ring.capacity q value) e k

  -- With no other thread at work, on a channel, open or closed, whose ring represents the queue q,
  -- with positions below 2 ^ 63 and fewer than 2 ^ 31 slots, channel_try_recv returns the oldest
  -- value of q and wakes the waiting sender, or returns NULL and wakes nobody where q is empty;
  -- the ring then represents the rest of q.
  pub try_recv-polls :
      (c : Channel C) (w : Actors) (q : List C)
      → Represents c.ring q
      → IsRoomy c.ring
      → (c' : Channel C) × (channel_try_recv c w
          ≡ some
              ((poll q).0, c', elim q [ [] ↦ w | x ∷ rest ↦ channel_wake_actor w c.send_waiter ]))
        × Represents c'.ring (poll q).1
        × (c'.closed ≡ c.closed)
  unfolding channel_try_recv
  try_recv-polls c w [] h roomy =
      let (r, e, k) = solo-poll 0 c.ring [] h roomy in
      (record c { ring = r }, rw (channel_try_recv, e) refl, k, refl)
  try_recv-polls c w (x ∷ q) h roomy =
      let (r, e, k) = solo-poll 0 c.ring (x ∷ q) h roomy in
      (record c { ring = r; send_waiter = none }, rw (channel_try_recv, e) refl, k, refl)

  -- The wake of channel_close reaches either waiter.
  pub close-awake :
      (c : Channel C) (w : Actors) (id : ℕ)
      → w.alive id ≡ true
      → (c.recv_waiter ≡ some id) ⊎ (c.send_waiter ≡ some id)
      → (channel_close c w).1.wait_flag id ≡ false
  unfolding channel_close
  close-awake c w id live h = elim h [
    | inl e ↦
        wake-asleep (channel_wake_actor w c.recv_waiter) c.send_waiter id
          (rw e (wake_lem w id live))
    | inr e ↦
        rw e
          (wake_lem (channel_wake_actor w c.recv_waiter) id (wake-alive w c.recv_waiter id ∙ live))
  ]

  -- Ids are handed out in increasing order.
  abbrev pub IsNumbered : Channels C → Type 0
  IsNumbered g = All (λ c. c.id < g.next_channel_id) g.channels

  find_fresh :
      (cs : List (Channel C)) (next : ℕ)
      → All (λ c. c.id < next) cs
      → find (λ c. c.id == next) cs ≡ none
  find_fresh [] next a = refl
  find_fresh (c ∷ cs) next a =
      let lt : c.id < next = a.0 in
      let other : (c.id == next) ≡ false = ground arith in rw other (find_fresh cs next a.1)

  raised :
      (cs : List (Channel C)) (next : ℕ) → All (λ c. c.id < next) cs → All (λ c. c.id < next + 1) cs
  raised [] next a = tt
  raised (c ∷ cs) next a = ((let lt : c.id < next = a.0 in omega arith), raised cs next a.1)

  find_older :
      (cs : List (Channel C)) (c : Channel C) (id : ℕ)
      → id < c.id
      → find (λ d. d.id == id) (cs ++ (c ∷ [])) ≡ find (λ d. d.id == id) cs
  find_older [] c id lt = let other : (c.id == id) ≡ false = ground arith in rw other refl
  find_older (d ∷ cs) c id lt = ground (arith, find_older cs c id lt)

  find_newest :
      (cs : List (Channel C)) (c : Channel C)
      → find (λ d. d.id == c.id) cs ≡ none
      → find (λ d. d.id == c.id) (cs ++ (c ∷ [])) ≡ some c
  find_newest [] c h = ground arith
  find_newest (d ∷ cs) c h = ground (arith, find_newest cs c)

  -- The table has room: the new channel is found by its id, and older ones as before.
  pub lookup-create :
      (g : Channels C) (capacity : ℕ)
      → IsNumbered g
      → length g.channels < max_channels
      → (c : Channel C) × (g' : Channels C) × (channel_create g capacity ≡ some (c, g'))
        × (channel_lookup g' c.id ≡ some c)
        × IsNumbered g'
        × ((id : ℕ) → id < c.id → channel_lookup g' id ≡ channel_lookup g id)
  unfolding channel_create channel_lookup
  lookup-create g capacity n room =
      let space : leb max_channels (length g.channels) ≡ false = ground arith in
      let chan : Channel C = record {
        id = g.next_channel_id;
        closed = false;
        ring =
            mailbox_init (next_pow2 (if capacity == 0 then default_channel_capacity else capacity));
        recv_waiter = none;
        send_waiter = none;
      } in
      let g' : Channels C = record {
        channels = g.channels ++ (chan ∷ []);
        next_channel_id = g.next_channel_id + 1;
      } in
      (
        chan,
        g',
        rw space refl,
        find_newest g.channels chan (find_fresh g.channels g.next_channel_id n),
        All-append (λ c. c.id < g.next_channel_id + 1) g.channels (chan ∷ [])
            (raised g.channels g.next_channel_id n) (omega arith, tt),
        λ id lt. find_older g.channels chan id lt,
      )
