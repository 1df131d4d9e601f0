-- ===== src/Runtime/Qsbr/Grace.antt =====
-- A retired actor stays until the threads that could see it have moved on.
use guage.Prelude.{
  ℕ, zero, suc, ◌+◌, ◌≤◌, ◌<◌, ◌≡◌, refl, ap, ◌∙◌, ◌≢◌, inl, inr, Bool, true, false, ◌&&◌, List, [],
  ◌∷◌, ◌++◌, arith, leb, ◌==◌, Bool-cases, length, get_or, set, length-append, length-set,
  get_or-set_ne, count, count-append,
}
use guage.Runtime.Qsbr.{
  Thread, Retired, Qsbr, retire_cap, unseen, all_passed, qsbr_safe, reclaim, Event, online, offline,
  quiescent, advance, retire, reclaims, happen, run, qsbr_thread_online, qsbr_thread_offline,
  qsbr_quiescent, qsbr_advance_epoch, qsbr_retire, qsbr_reclaim_amortized,
}

-- No announcement is of thread `id`.
abbrev pub IsSilent : ℕ → List Event → Type 0
IsSilent id [] = Unit
IsSilent id (online j ∷ es) = (j ≢ id) × IsSilent id es
IsSilent id (offline j ∷ es) = (j ≢ id) × IsSilent id es
IsSilent id (quiescent j ∷ es) = (j ≢ id) × IsSilent id es
IsSilent id (advance ∷ es) = IsSilent id es
IsSilent id (retire a ∷ es) = IsSilent id es
IsSilent id (reclaims ∷ es) = IsSilent id es

-- The ring holds fewer than 255 entries before each of the events.
unfoldable pub IsBelow : Qsbr → List Event → Type 0
unfolding qsbr_thread_online qsbr_thread_offline qsbr_quiescent qsbr_advance_epoch qsbr_retire
    qsbr_reclaim_amortized
IsBelow s [] = Unit
IsBelow s (ev ∷ es) = (length s.retired + 1 < retire_cap) × IsBelow (happen s ev) es

-- The thread is online and has announced no epoch past `e`.
pub record Blocks (s : Qsbr) (id e : ℕ) : Type 0 where
  pub known : id < length s.threads
  pub awake : (get_or s.threads id unseen).online ≡ true
  pub old : (get_or s.threads id unseen).epoch ≤ e

blocked :
    (e id : ℕ) (ts : List Thread)
    → id < length ts
    → (get_or ts id unseen).online ≡ true
    → (get_or ts id unseen).epoch ≤ e
    → all_passed e ts ≡ false
unfolding all_passed
blocked e id [] k a o = absurd (omega arith)
blocked e zero (t ∷ ts) k a o = ground arith
blocked e (suc id) (t ∷ ts) k a o = ground (arith, blocked e id ts)

announce-Blocks :
    (s : Qsbr) (id e j : ℕ) (t : Thread)
    → j ≢ id
    → Blocks s id e
    → Blocks (record s { threads = set s.threads j t }) id e
announce-Blocks s id e j t d b =
    let same = get_or-set_ne s.threads j id t unseen d in
    record {
      known = omega (arith, b.known, length-set s.threads j t);
      awake = ap Thread.online same ∙ b.awake;
      old = rw same b.old;
    }

-- The entry of an actor that was retired in epoch `e`.
abbrev pub is_entry : ℕ → ℕ → Retired → Bool
is_entry actor e r = r.actor == actor && r.at == e

-- Reclamation does not pass an entry that is not safe.
reclaim-keeps :
    (n : ℕ) (ts : List Thread) (rs : List Retired) (q : Retired → Bool)
    → ((r : Retired) → q r ≡ true → all_passed r.at ts ≡ false)
    → count q (reclaim n ts rs) ≡ count q rs
unfolding reclaim
reclaim-keeps zero ts rs q a = refl
reclaim-keeps (suc n) ts [] q a = refl
reclaim-keeps (suc n) ts (r ∷ rs) q a = elim (Bool-cases (all_passed r.at ts)) [
  | inr stays ↦ rw stays refl
  | inl goes ↦ elim (Bool-cases (q r)) [
    | inl p ↦ let no : all_passed r.at ts ≡ false = a r p in cc
    | inr p ↦ rw (goes, p) (omega (arith, reclaim-keeps n ts rs q a))
  ]
]

-- After one event the thread still blocks, and the entry is still there.
record Stays (s s' : Qsbr) (id e actor : ℕ) : Type 0 where
  pub blocks : Blocks s' id e
  pub there : count (is_entry actor e) s.retired ≤ count (is_entry actor e) s'.retired

announce-Stays :
    (s : Qsbr) (id e actor j : ℕ) (t : Thread)
    → j ≢ id
    → Blocks s id e
    → Stays s (record s { threads = set s.threads j t }) id e actor
announce-Stays s id e actor j t d b = record {
  blocks = announce-Blocks s id e j t d b;
  there = omega arith;
}

happen-Stays :
    (s : Qsbr) (id e actor : ℕ) (ev : Event) (es : List Event)
    → IsSilent id (ev ∷ es)
    → Blocks s id e
    → length s.retired + 1 < retire_cap
    → Stays s (happen s ev) id e actor × IsSilent id es
unfolding qsbr_thread_online qsbr_thread_offline qsbr_quiescent qsbr_advance_epoch qsbr_retire
    qsbr_reclaim_amortized
happen-Stays s id e actor (online j) es h b small = (announce-Stays s id e actor j _ h.0 b, h.1)
happen-Stays s id e actor (offline j) es h b small = (announce-Stays s id e actor j _ h.0 b, h.1)
happen-Stays s id e actor (quiescent j) es h b small = (announce-Stays s id e actor j _ h.0 b, h.1)
happen-Stays s id e actor advance es h b small = (
  record { blocks = record { known = b.known; awake = b.awake; old = b.old }; there = omega arith },
  h,
)
happen-Stays s id e actor (retire a) es h b small =
    let r : Retired = record { actor = a; at = s.global_epoch } in
    let size = length-append s.retired (r ∷ []) in
    let more = count-append (is_entry actor e) s.retired (r ∷ []) in
    let kept : leb retire_cap (length (s.retired ++ (r ∷ []))) ≡ false = ground (arith, size) in
    (
      rw kept (record {
        blocks = record { known = b.known; awake = b.awake; old = b.old };
        there = omega (arith, more);
      }),
      h,
    )
happen-Stays s id e actor reclaims es h b small = (
  record {
    blocks = record { known = b.known; awake = b.awake; old = b.old };
    there = omega (
      arith,
      reclaim-keeps 2 s.threads s.retired (is_entry actor e) (λ r p.
          let at : r.at ≡ e = ground arith in rw at (blocked e id s.threads b.known b.awake b.old)),
    );
  },
  h,
)

run-there :
    (s : Qsbr) (id e actor : ℕ) (es : List Event)
    → IsSilent id es
    → Blocks s id e
    → IsBelow s es
    → (count (is_entry actor e) s.retired ≤ count (is_entry actor e) (run s es).retired)
      × (qsbr_safe (run s es) e ≡ false)
unfolding run qsbr_safe IsBelow
run-there s id e actor [] h b small = (omega arith, blocked e id s.threads b.known b.awake b.old)
run-there s id e actor (ev ∷ es) h b small =
    let (st, h') = happen-Stays s id e actor ev es h b small.0 in
    let (there, safe) = run-there (happen s ev) id e actor es h' st.blocks small.1 in
    (omega (arith, st.there), safe)

-- An actor is retired while a scheduler thread is online that has announced no epoch past the
-- global one; in any run of other threads' announcements, epoch advances, retirements and
-- reclamations, as long as the ring holds fewer than 255 entries before each retirement and each
-- other event, the actor is still in the ring and its grace period has not passed until that
-- thread announces again.
pub retired_waits :
    (s : Qsbr) (id actor : ℕ) (es : List Event)
    → id < length s.threads
    → (get_or s.threads id unseen).online ≡ true
    → (get_or s.threads id unseen).epoch ≤ s.global_epoch
    → IsSilent id es
    → IsBelow s (retire actor ∷ es)
    → (0 < count (is_entry actor s.global_epoch) (run (qsbr_retire s actor) es).retired)
      × (qsbr_safe (run (qsbr_retire s actor) es) s.global_epoch ≡ false)
unfolding run qsbr_retire IsBelow
retired_waits s id actor es known awake old h small =
    let e = s.global_epoch in
    let r : Retired = record { actor = actor; at = e } in
    let size = length-append s.retired (r ∷ []) in
    let more = count-append (is_entry actor e) s.retired (r ∷ []) in
    let kept : leb retire_cap (length (s.retired ++ (r ∷ []))) ≡ false =
      ground (arith, size, small.0) in
    let new : is_entry actor e r ≡ true = ground arith in
    let s₁ : Qsbr = record s { retired = s.retired ++ (r ∷ []) } in
    let same : qsbr_retire s actor ≡ s₁ = rw (qsbr_retire, kept) refl in
    let (there, safe) =
      run-there s₁ id e actor es h (record { known = known; awake = awake; old = old })
        (rw same at small.1) in
    let held : 0 < count (is_entry actor e) (s.retired ++ (r ∷ [])) = ground (arith, more, new) in
    rw same (omega arith, safe)
