-- ===== src/Runtime/Exit/Grows.antt =====
-- What one world may say of a later one, while the ends of actors are told.
use guage.Prelude.{
  ℕ, ◌≡◌, refl, sym, ap, ◌∙◌, ◌≢◌, inl, inr, true, false, Option, some, List, Bool-cases, All,
  All_mono,
}
use guage.Runtime.Exit.{Reason, is_error, Actor, Event, exit_sent, down_sent, World, actor_lookup}
use guage.Runtime.Exit.Notify.{down_reason}
use mathlib.Core.List.{Mem}

module _ {ℓ} {C : Type ℓ} where
  -- An actor and the same actor later: the dead stay dead, with their result, and the living have
  -- lived with the same links and monitors.
  pub record Later (a a' : Actor C) : Type ℓ where
    pub same_trap : a'.trap_exit ≡ a.trap_exit
    pub lived : a'.alive ≡ true → a.alive ≡ true
    pub same_links : a'.alive ≡ true → a'.links ≡ a.links
    pub same_monitors : a'.alive ≡ true → a'.monitors ≡ a.monitors
    pub same_result : a.alive ≡ false → a'.result ≡ a.result

  abbrev pub Keeps : World C → World C → Type ℓ
  Keeps w w' =
      (id : ℕ) (a : Actor C)
      → actor_lookup w id ≡ some a
      → (a' : Actor C) × (actor_lookup w' id ≡ some a') × Later a a'

  abbrev pub Logs : World C → World C → Type ℓ
  Logs w w' = (e : Event C) → Mem e w.events → Mem e w'.events

  -- The linked actor `z`, if it existed, is dead or traps exits and has been sent the reason.
  abbrev pub LinkTold : World C → World C → ℕ → Reason C → ℕ → Type ℓ
  LinkTold w w' id r z =
      (a b : Actor C)
      → actor_lookup w z ≡ some a
      → actor_lookup w' z ≡ some b
      → b.alive ≡ true
      → (b.trap_exit ≡ true) × Mem (exit_sent z id r) w'.events

  -- The watcher `z`, if it existed, is dead or has been sent the end.
  abbrev pub MonitorTold : World C → World C → ℕ → Reason C → ℕ → Type ℓ
  MonitorTold w w' id r z =
      (a b : Actor C)
      → actor_lookup w z ≡ some a
      → actor_lookup w' z ≡ some b
      → b.alive ≡ true
      → Mem (down_sent z id (down_reason r)) w'.events

  -- All these links and monitors, as they are in `w`, know in `w'` that it ended with `r`.
  pub record Told (w w' : World C) (id : ℕ) (r : Reason C) (links monitors : List ℕ) : Type ℓ where
    pub links_told : is_error r ≡ true → All (LinkTold w w' id r) links
    pub monitors_told : All (MonitorTold w w' id r) monitors

  abbrev pub Closed : World C → World C → Type ℓ
  Closed w w' =
      (id : ℕ) (a a' : Actor C)
      → actor_lookup w id ≡ some a
      → a.alive ≡ true
      → actor_lookup w' id ≡ some a'
      → a'.alive ≡ false
      → Told w w' id a'.result a.links a.monitors

  -- The lists of the dead are left alone, but for those of `x`.
  abbrev pub SparesBut : ℕ → World C → World C → Type ℓ
  SparesBut x w w' =
      (k : ℕ) (b : Actor C)
      → k ≢ x
      → actor_lookup w k ≡ some b
      → b.alive ≡ false
      → (b' : Actor C) × (actor_lookup w' k ≡ some b')
        × (b'.links ≡ b.links)
        × (b'.monitors ≡ b.monitors)

  abbrev pub Spares : World C → World C → Type ℓ
  Spares w w' =
      (k : ℕ) (b : Actor C)
      → actor_lookup w k ≡ some b
      → b.alive ≡ false
      → (b' : Actor C) × (actor_lookup w' k ≡ some b')
        × (b'.links ≡ b.links)
        × (b'.monitors ≡ b.monitors)

  pub record Grows (w w' : World C) : Type ℓ where
    pub keeps : Keeps w w'
    pub logs : Logs w w'
    pub closed : Closed w w'

  pub not_both :
      {a b : Actor C} {x : Option (Actor C)}
      → x ≡ some a
      → x ≡ some b
      → a.alive ≡ true
      → b.alive ≡ false
      → ⊥
  not_both h k l d = cc

  pub stays_dead : {a b : Actor C} → Later a b → a.alive ≡ false → b.alive ≡ false
  stays_dead {a = a} {b = b} h d = elim (Bool-cases b.alive) [
    | inl l ↦ let e = h.lived l in absurd cc
    | inr e ↦ e
  ]

  pub Later-refl : (a : Actor C) → Later a a
  Later-refl a = record {
    same_trap = refl;
    lived = λ h. h;
    same_links = λ h. refl;
    same_monitors = λ h. refl;
    same_result = λ h. refl;
  }

  pub Later-trans : {a b c : Actor C} → Later a b → Later b c → Later a c
  Later-trans {a = a} {b = b} {c = c} h k = record {
    same_trap = k.same_trap ∙ h.same_trap;
    lived = λ l. h.lived (k.lived l);
    same_links = λ l. k.same_links l ∙ h.same_links (k.lived l);
    same_monitors = λ l. k.same_monitors l ∙ h.same_monitors (k.lived l);
    same_result = λ d. k.same_result (stays_dead h d) ∙ h.same_result d;
  }

  -- A world that has the same actors, and more events.
  pub Grows-same : {w w' : World C} → w'.actors ≡ w.actors → Logs w w' → Grows w w'
  Grows-same {w = w} {w' = w'} e l = record {
    keeps = λ id a h. (a, rw e h, Later-refl a);
    logs = l;
    closed = λ id a a' h l k d. absurd (not_both h (rw e at k) l d);
  }

  module _ (w v v' : World C) (id : ℕ) (r : Reason C) (p : Keeps w v) where
    pub LinkTold-up : Grows v v' → (z : ℕ) → LinkTold w v id r z → LinkTold w v' id r z
    LinkTold-up g z t a b h k l =
        let (c, f, q) = p z a h in
        let (c', f', q') = g.keeps z c f in
        let e : c' ≡ b = cc in
        let o : c.alive ≡ true = q'.lived (ap Actor.alive e ∙ l) in
        let (x, m) = t a c h f o in (sym (ap Actor.trap_exit e) ∙ (q'.same_trap ∙ x), g.logs _ m)

    pub MonitorTold-up : Grows v v' → (z : ℕ) → MonitorTold w v id r z → MonitorTold w v' id r z
    MonitorTold-up g z t a b h k l =
        let (c, f, q) = p z a h in
        let (c', f', q') = g.keeps z c f in
        let e : c' ≡ b = cc in
        let o : c.alive ≡ true = q'.lived (ap Actor.alive e ∙ l) in g.logs _ (t a c h f o)

    pub LinkTold-down : (z : ℕ) → LinkTold v v' id r z → LinkTold w v' id r z
    LinkTold-down z t a b h k l = let (c, f, q) = p z a h in t c b f k l

    pub MonitorTold-down : (z : ℕ) → MonitorTold v v' id r z → MonitorTold w v' id r z
    MonitorTold-down z t a b h k l = let (c, f, q) = p z a h in t c b f k l

    -- What was told stays told.
    pub Told-up : (ls ms : List ℕ) → Grows v v' → Told w v id r ls ms → Told w v' id r ls ms
    Told-up ls ms g t = record {
      links_told = λ e. All_mono (LinkTold-up g) ls (t.links_told e);
      monitors_told = All_mono (MonitorTold-up g) ms t.monitors_told;
    }

    -- What was told to those of a later world was told to those of an earlier one.
    pub Told-down : (ls ms : List ℕ) → Told v v' id r ls ms → Told w v' id r ls ms
    Told-down ls ms t = record {
      links_told = λ e. All_mono LinkTold-down ls (t.links_told e);
      monitors_told = All_mono MonitorTold-down ms t.monitors_told;
    }

  pub Grows-trans : {w v v' : World C} → Grows w v → Grows v v' → Grows w v'
  Grows-trans {w = w} {v = v} {v' = v'} g k = record {
    keeps = λ id a h.
        let (b, f, l) = g.keeps id a h in
        let (c, f', m) = k.keeps id b f in (c, f', Later-trans l m);
    logs = λ e m. k.logs e (g.logs e m);
    closed = λ id a c h l f d.
        let (b, e, q) = g.keeps id a h in
        let (b', e', q') = k.keeps id b e in
        let same : b' ≡ c = cc in
        elim (Bool-cases b.alive) [
          | inl o ↦
              let t = k.closed id b c e o f d in
              Told-down w v v' id c.result g.keeps a.links a.monitors
                (rw (q.same_links o, q.same_monitors o) at t)
          | inr o ↦
              let t = g.closed id a b h l e o in
              let r : c.result ≡ b.result = sym (ap Actor.result same) ∙ q'.same_result o in
              rw r (Told-up w v v' id b.result g.keeps a.links a.monitors k t)
        ];
  }
