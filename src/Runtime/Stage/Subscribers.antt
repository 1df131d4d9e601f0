-- ===== src/Runtime/Stage/Subscribers.antt =====
-- Who subscribes to whom, and that the slots stay well-formed.
use guage.Prelude.{
  ℕ, ◌≤◌, ◌<◌, ◌≡◌, refl, sym, ap, ◌∙◌, ◌≢◌, ◌↔◌, inl, inr, Bool, true, false, none, some, List, [],
  ◌∷◌, ◌++◌, arith, leb, ◌==◌, if◌then◌else◌, Bool-cases, Option-cases, length, find, count,
  find-eq-none, update_first, update_first-absent,
}
use guage.Runtime.Slots.{Slot, has_id, lookup_slot, modify, change}
use guage.Runtime.Slots.Invariant.{IsValid}
use guage.Runtime.Slots.Access.{lookup-modify}
use guage.Runtime.Stage.{
  Stage, Stages, Subscribed, ok, max_subscribers, stage_lookup, find_last, update_last, subscribe,
  stage_subscribe,
}

module _ {ℓ} {A : Type ℓ} (p : A → Bool) where
  find_last-none : (xs : List A) → count p xs ≡ 0 → find_last p xs ≡ none
  unfolding find_last
  find_last-none [] h = refl
  find_last-none (x ∷ xs) h = ground (arith, find_last-none xs)

  -- Where one element matches at most, the last match is the first.
  pub find_last-find : (xs : List A) → count p xs ≤ 1 → find_last p xs ≡ find p xs
  unfolding find_last
  find_last-find [] h = refl
  find_last-find (x ∷ xs) h =
      ground (arith, find_last-find xs, find_last-none xs, find-eq-none p xs)

  -- Then a write to the last match is one to the first.
  update_last-first :
      (f : A → A) (xs : List A) → count p xs ≤ 1 → update_last p f xs ≡ update_first p f xs
  unfolding update_last
  update_last-first f [] h = refl
  update_last-first f (x ∷ xs) h = elim (Bool-cases (p x)) [
    | inl b ↦
        let none_left : find_last p xs ≡ none = find_last-none xs (ground arith) in
        rw (none_left, update_last) (rw b refl)
    | inr b ↦
        let few : count p xs ≤ 1 = ground arith in
        elim (Option-cases (find_last p xs)) [
          | inl g ↦
              let gone : find p xs ≡ none = sym (find_last-find xs few) ∙ g in
              rw (g, update_last) (rw (b, update_first-absent p f xs gone) refl)
          | inr (y, g) ↦ rw (g, update_last) (rw b (ap (λ ys. x ∷ ys) (update_last-first f xs few)))
        ]
  ]

module _ {ℓ} {C : Type ℓ} (t : Stages C) (c p : ℕ) where
  pub no_producer :
      find_last (has_id p) t.slots ≡ none → stage_subscribe t c p ≡ (Subscribed.not_found, t)
  unfolding stage_subscribe
  no_producer h = rw (h, stage_subscribe)

  pub no_consumer :
      find_last (has_id c) t.slots ≡ none → stage_subscribe t c p ≡ (Subscribed.not_found, t)
  unfolding stage_subscribe
  no_consumer h = elim (Option-cases (find_last (has_id p) t.slots)) [
    | inl g ↦ no_producer g
    | inr (s, g) ↦ rw (g, stage_subscribe) (rw h refl)
  ]

  pub too_many :
      (s d : Slot (Stage C))
      → find_last (has_id p) t.slots ≡ some s
      → find_last (has_id c) t.slots ≡ some d
      → leb max_subscribers (length s.body.subscribers) ≡ true
      → stage_subscribe t c p ≡ (Subscribed.full, t)
  unfolding stage_subscribe
  too_many s d h g b = rw (h, stage_subscribe) (rw g (rw b refl))

  pub accepted :
      (s d : Slot (Stage C))
      → find_last (has_id p) t.slots ≡ some s
      → find_last (has_id c) t.slots ≡ some d
      → leb max_subscribers (length s.body.subscribers) ≡ false
      → count (has_id p) t.slots ≤ 1
      → stage_subscribe t c p ≡ (Subscribed.ok, modify t p (subscribe c))
  unfolding stage_subscribe modify
  accepted s d h g b one =
      rw (h, stage_subscribe)
        (rw g (rw b (rw (update_last-first (has_id p) (change (subscribe c)) t.slots one) refl)))

-- The ids that subscribe to a stage, none for an id that is not in use.
abbrev pub subscribers_of {ℓ} : {C : Type ℓ} → Stages C → ℕ → List ℕ
subscribers_of t i = elim (stage_lookup t i) [ none ↦ [] | some s ↦ s.body.subscribers ]

module _ {ℓ} {C : Type ℓ} (t : Stages C) (v : IsValid t) where
  pub found : (i : ℕ) → find_last (has_id i) t.slots ≡ lookup_slot t i
  found i = find_last-find (has_id i) t.slots (v.ids i)

  -- In well-formed slots, stage_subscribe succeeds exactly when both stages exist and the producer
  -- has fewer than 16 subscribers.
  pub subscribe-ok_iff :
      (c p : ℕ)
      → ((stage_subscribe t c p).0 ≡ Subscribed.ok) ↔ (
          (stage_lookup t p ≢ none)
          × (stage_lookup t c ≢ none)
          × (length (subscribers_of t p) < max_subscribers))
  unfolding stage_lookup
  subscribe-ok_iff c p = elim (Option-cases (lookup_slot t p)) [
    | inl h ↦ rw (no_producer t c p (found p ∙ h)) (λ e. cc, λ q. absurd (q.0 h))
    | inr (s, h) ↦ elim (Option-cases (lookup_slot t c)) [
      | inl g ↦ rw (no_consumer t c p (found c ∙ g)) (λ e. cc, λ q. absurd (q.1 g))
      | inr (d, g) ↦ elim (Bool-cases (leb max_subscribers (length s.body.subscribers))) [
        | inl b ↦
            rw (too_many t c p s d (found p ∙ h) (found c ∙ g) b, h)
              (λ e. cc, λ q. ground (arith, q.2))
        | inr b ↦
            rw (accepted t c p s d (found p ∙ h) (found c ∙ g) b (v.ids p), h)
              ((λ e. (λ n. cc, λ n. cc, ground arith)), λ q. refl)
      ]
    ]
  ]

  -- In well-formed slots, after stage_subscribe that succeeds, the consumer is the last subscriber
  -- of the producer and all other stages have the subscribers they had; after one that fails, all
  -- have.
  pub subscribers-subscribe :
      (c p j : ℕ)
      → subscribers_of (stage_subscribe t c p).1 j ≡ elim (stage_subscribe t c p).0 [
        | ok ↦ (if j == p then subscribers_of t p ++ (c ∷ []) else subscribers_of t j)
        | _ ↦ subscribers_of t j
      ]
  unfolding stage_lookup
  subscribers-subscribe c p j = elim (Option-cases (lookup_slot t p)) [
    | inl h ↦ rw (no_producer t c p (found p ∙ h)) refl
    | inr (s, h) ↦ elim (Option-cases (lookup_slot t c)) [
      | inl g ↦ rw (no_consumer t c p (found c ∙ g)) refl
      | inr (d, g) ↦ elim (Bool-cases (leb max_subscribers (length s.body.subscribers))) [
        | inl b ↦ rw (too_many t c p s d (found p ∙ h) (found c ∙ g) b) refl
        | inr b ↦
            rw (accepted t c p s d (found p ∙ h) (found c ∙ g) b (v.ids p))
              (ground (arith, lookup-modify t p j (subscribe c), h))
      ]
    ]
  ]
