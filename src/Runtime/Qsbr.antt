-- ===== src/Runtime/Qsbr.antt =====
-- The grace periods of bootstrap/scheduler.c (`qsbr_*`): retired actors wait in a ring until every
-- scheduler thread has passed a quiescent state. A ring that holds fewer entries than its 256 slots
-- is the list of its entries, oldest first. Each operation is one step; the rings of the schedulers
-- do not touch each other, so that one of them stands here.
pub mod Grace
mod Tests
use guage.Prelude.{
  ℕ, zero, suc, ◌+◌, ◌%◌, ◌^◌, Bool, true, false, not, List, [], ◌∷◌, ◌++◌, leb, if◌then◌else◌,
  length, get_or, set, drop, replicate,
}

pub record Thread : Type 0 where
  pub epoch : ℕ
  pub online : Bool

pub record Retired : Type 0 where
  pub actor : ℕ
  pub at : ℕ

pub record Qsbr : Type 0 where
  pub global_epoch : ℕ
  pub threads : List Thread
  pub retired : List Retired

abbrev pub retire_cap : ℕ
retire_cap = 256

abbrev pub unseen : Thread
unseen = record { epoch = 0; online = false }

unfoldable pub qsbr_init : ℕ → Qsbr
qsbr_init num_schedulers = record {
  global_epoch = 1;
  threads = replicate num_schedulers unseen;
  retired = [];
}

unfoldable pub qsbr_thread_online : Qsbr → ℕ → Qsbr
qsbr_thread_online s id = record s {
  threads = set s.threads id (record { epoch = s.global_epoch; online = true });
}

unfoldable pub qsbr_thread_offline : Qsbr → ℕ → Qsbr
qsbr_thread_offline s id = record s {
  threads =
      set s.threads id (record { epoch = (get_or s.threads id unseen).epoch; online = false });
}

unfoldable pub qsbr_quiescent : Qsbr → ℕ → Qsbr
qsbr_quiescent s id = record s {
  threads =
      set s.threads id
        (record { epoch = s.global_epoch; online = (get_or s.threads id unseen).online });
}

unfoldable pub qsbr_advance_epoch : Qsbr → Qsbr
qsbr_advance_epoch s = record s { global_epoch = (s.global_epoch + 1) % 2 ^ 64 }

-- The loop of `qsbr_safe`.
unfoldable pub all_passed : ℕ → List Thread → Bool
all_passed retire_epoch [] = true
all_passed retire_epoch (t ∷ ts) =
    let rest = all_passed retire_epoch ts in
    if not t.online then rest else if leb t.epoch retire_epoch then false else rest

unfoldable pub qsbr_safe : Qsbr → ℕ → Bool
unfolding all_passed
qsbr_safe s retire_epoch = all_passed retire_epoch s.threads

-- `if (r->tail - r->head >= RETIRE_CAP)` the oldest entry goes.
abbrev pub force_drain : List Retired → List Retired
force_drain rs = if leb retire_cap (length rs) then drop 1 rs else rs

unfoldable pub qsbr_retire : Qsbr → ℕ → Qsbr
qsbr_retire s actor = record s {
  retired = force_drain (s.retired ++ (record { actor = actor; at = s.global_epoch } ∷ []));
}

-- The loop of `qsbr_reclaim_amortized`, by what it may still free.
unfoldable pub reclaim : ℕ → List Thread → List Retired → List Retired
unfolding all_passed
reclaim zero ts rs = rs
reclaim (suc n) ts [] = []
reclaim (suc n) ts (r ∷ rs) =
    let rest = reclaim n ts rs in if all_passed r.at ts then rest else r ∷ rs

unfoldable pub qsbr_reclaim_amortized : Qsbr → Qsbr
unfolding reclaim
qsbr_reclaim_amortized s = record s { retired = reclaim 2 s.threads s.retired }

-- The part of `qsbr_drain_all` for this ring.
abbrev pub qsbr_drain : Qsbr → Qsbr
qsbr_drain s = record s { retired = [] }

-- What the schedulers do while they run.
pub data Event : Type 0 where
  online : (id : ℕ) → Event
  offline : (id : ℕ) → Event
  quiescent : (id : ℕ) → Event
  advance : Event
  retire : (actor : ℕ) → Event
  reclaims : Event

abbrev pub happen : Qsbr → Event → Qsbr
happen s (online id) = qsbr_thread_online s id
happen s (offline id) = qsbr_thread_offline s id
happen s (quiescent id) = qsbr_quiescent s id
happen s advance = qsbr_advance_epoch s
happen s (retire actor) = qsbr_retire s actor
happen s reclaims = qsbr_reclaim_amortized s

unfoldable pub run : Qsbr → List Event → Qsbr
unfolding qsbr_thread_online qsbr_thread_offline qsbr_quiescent qsbr_advance_epoch qsbr_retire
    qsbr_reclaim_amortized
run s [] = s
run s (e ∷ es) = run (happen s e) es
