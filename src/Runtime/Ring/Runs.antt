-- ===== src/Runtime/Ring/Runs.antt =====
-- Any number of threads, in any order of their steps.
use guage.Prelude.{
  ℕ, ◌+◌, ◌%◌, ◌^◌, ◌≤◌, ◌<◌, ◌≡◌, refl, inl, inr, Bool, true, false, not, ◌&&◌, ◌||◌, none, arith,
  leb, ◌==◌, Bool-cases,
}
use guage.Runtime.Ring.{
  Call, idle, send_load, send_check, send_claim, send_write, send_publish, send_count, sent,
  recv_test, recv_load, recv_check, recv_claim, recv_take, recv_release, recv_count, received,
  World, still, step, send_step, recv_step, diff64, u64,
}
use guage.Runtime.Ring.Invariant.{seq_at, owned, IsNear, IsSound, Valid}
use guage.Runtime.Ring.Frame.{Advances}
use guage.Runtime.Ring.Owners.{local-Advances}
use guage.Runtime.Ring.Claims.{send_claim-Advances, recv_claim-Advances}
use guage.Runtime.Ring.Writes.{
  send_write-Advances, send_publish-Advances, recv_take-Advances, recv_release-Advances,
}

module _ {ℓ} {C : Type ℓ} {w : World C} (v : Valid w) (t : ℕ)
    (small : w.ring.enqueue_pos + w.ring.capacity < 2 ^ 63) where
  seq_small : (p : ℕ) → seq_at w.ring p < 2 ^ 63
  seq_small p =
      let s = v.slots p in
      elim s.state [ inl f ↦ omega (arith, f.0, f.1, v.behind) | inr f ↦ omega (arith, f.0, f.1) ]

  stay :
      (c : Call C)
      → IsNear w.ring c
      → IsSound w.ring w.accepted w.delivered c
      → owned c ≡ none
      → Advances w t (still w.ring c)
  stay c near sound o = local-Advances w t w.ring.count c v near sound o

  send_check-Advances :
      (lost : Bool) (message : C) (p : ℕ)
      → w.calls t ≡ send_check message p
      → Advances w t (step lost w.ring (send_check message p))
  unfolding send_step
  send_check-Advances lost message p c =
      let near : p ≤ w.ring.enqueue_pos = rw c at (v.near t) in
      let bound = seq_small p in
      elim (Bool-cases (diff64 (seq_at w.ring p) p == 0)) [
        | inl here ↦ rw here (stay (send_claim message p) (ground arith) tt refl)
        | inr d ↦ elim (Bool-cases (leb (2 ^ 63) (diff64 (seq_at w.ring p) p))) [
          | inl behind ↦ rw (d, behind) (stay (sent false) tt tt refl)
          | inr ahead ↦ rw (d, ahead) (stay (send_load message) tt tt refl)
        ]
      ]

  recv_check-Advances :
      (lost : Bool) (p : ℕ)
      → w.calls t ≡ recv_check p
      → Advances w t (step lost w.ring (recv_check p))
  unfolding recv_step
  recv_check-Advances lost p c =
      let near : p ≤ w.ring.dequeue_pos = rw c at (v.near t) in
      let bound = seq_small p in
      let diff = diff64 (seq_at w.ring p) ((p + 1) % u64) in
      elim (Bool-cases (diff == 0)) [
        | inl here ↦ rw here (stay (recv_claim p) (ground (arith, v.behind)) tt refl)
        | inr d ↦ elim (Bool-cases (leb (2 ^ 63) diff)) [
          | inl behind ↦ rw (d, behind) (stay (received none) tt tt refl)
          | inr ahead ↦ rw (d, ahead) (stay recv_load tt tt refl)
        ]
      ]

  send_claim_step :
      (lost : Bool) (message : C) (p : ℕ)
      → w.calls t ≡ send_claim message p
      → Advances w t (step lost w.ring (send_claim message p))
  unfolding send_step
  send_claim_step lost message p c =
      let near : p ≤ seq_at w.ring p = rw c at (v.near t) in
      elim (Bool-cases (not lost && (w.ring.enqueue_pos == p))) [
        | inl won ↦
            let e : w.ring.enqueue_pos ≡ p = ground arith in
            let word : (p + 1) % u64 ≡ p + 1 = omega arith in
            rw (won, word) (send_claim-Advances v t message p e near)
        | inr failed ↦
            rw failed (stay (send_check message w.ring.enqueue_pos) (omega arith) tt refl)
      ]

  recv_claim_step :
      (lost : Bool) (p : ℕ)
      → w.calls t ≡ recv_claim p
      → Advances w t (step lost w.ring (recv_claim p))
  unfolding recv_step
  recv_claim_step lost p c =
      let near : p + 1 ≤ seq_at w.ring p = rw c at (v.near t) in
      elim (Bool-cases (not lost && (w.ring.dequeue_pos == p))) [
        | inl won ↦
            let e : w.ring.dequeue_pos ≡ p = ground arith in
            let word : (p + 1) % u64 ≡ p + 1 = omega (arith, v.behind) in
            rw (won, word) (recv_claim-Advances v t p e near)
        | inr failed ↦ rw failed (stay (recv_check w.ring.dequeue_pos) (omega arith) tt refl)
      ]

  pub step-Advances : (lost : Bool) (c : Call C) → w.calls t ≡ c → Advances w t (step lost w.ring c)
  unfolding send_step recv_step
  step-Advances lost idle e = stay idle tt tt refl
  step-Advances lost (send_load message) e =
      stay (send_check message w.ring.enqueue_pos) (omega arith) tt refl
  step-Advances lost (send_check message p) e = send_check-Advances lost message p e
  step-Advances lost (send_claim message p) e = send_claim_step lost message p e
  step-Advances lost (send_write message p) e = send_write-Advances v t p message e
  step-Advances lost (send_publish p) e =
      let k : IsSound w.ring w.accepted w.delivered (send_publish p) = rw e at (v.sound t) in
      let word : (p + 1) % u64 ≡ p + 1 = omega (arith, k.0) in
      rw word (send_publish-Advances v t p e)
  step-Advances lost send_count e = local-Advances w t _ (sent true) v tt tt refl
  step-Advances lost (sent b) e = stay (sent b) tt tt refl
  step-Advances lost recv_test e =
      elim (Bool-cases (w.ring.count == 0 || leb (2 ^ 31) w.ring.count)) [
        | inl b ↦ rw b (stay (received none) tt tt refl)
        | inr b ↦ rw b (stay recv_load tt tt refl)
      ]
  step-Advances lost recv_load e = stay (recv_check w.ring.dequeue_pos) (omega arith) tt refl
  step-Advances lost (recv_check p) e = recv_check-Advances lost p e
  step-Advances lost (recv_claim p) e = recv_claim_step lost p e
  step-Advances lost (recv_take p) e = recv_take-Advances v t p e
  step-Advances lost (recv_release p value) e =
      let k : IsSound w.ring w.accepted w.delivered (recv_release p value) = rw e at (v.sound t) in
      let word : (p + w.ring.capacity) % u64 ≡ p + w.ring.capacity = omega (arith, k.0, v.behind) in
      rw word (recv_release-Advances v t p value e)
  step-Advances lost (recv_count value) e = local-Advances w t _ (received value) v tt tt refl
  step-Advances lost (received value) e = stay (received value) tt tt refl
