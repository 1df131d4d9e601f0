-- ===== src/Language/Span/Laws.antt =====
-- What the accessors of bootstrap/span.h read of a span that was made.
use guage.Prelude.{
  ℕ, ◌+◌, ◌-◌, ◌%◌, ◌≤◌, ◌<◌, min, dec_lt, ◌≡◌, refl, true, false, arith, ltb, leb, ◌==◌,
}
use guage.Language.Span.{
  span_with_ctxt, span_lo, span_hi, span_ctxt, span_is_interned, u32, u16, marker, max_len,
}

-- For lo at most hi below 2 ^ 32 and a context below 0xFFFF the accessors of span_with_ctxt give
-- back lo and the context, and as end the lesser of hi and lo + 0xFFFE.
pub span_with_ctxt-accessors :
    (lo hi ctxt : ℕ)
    → lo ≤ hi
    → hi < u32
    → ctxt < marker
    → ((span_lo (span_with_ctxt lo hi ctxt) ≡ lo)
        × ((span_hi (span_with_ctxt lo hi ctxt) ≡ min hi (lo + max_len))
            × (span_ctxt (span_with_ctxt lo hi ctxt) ≡ ctxt)))
unfolding span_lo span_hi span_ctxt span_with_ctxt span_is_interned
span_with_ctxt-accessors lo hi ctxt h k c =
    let d : (hi + u32 - lo) % u32 ≡ hi - lo = omega arith in
    let t : ltb ctxt marker ≡ true = ground arith in
    elim (dec_lt max_len (hi - lo)) [
      | yes l ↦
          let s : leb (hi - lo) max_len ≡ false = ground arith in
          rw (d, t, s) (refl, (omega arith, refl))
      | no l ↦
          let s : leb (hi - lo) max_len ≡ true = ground arith in
          let w : (hi - lo) % u16 ≡ hi - lo = omega arith in
          let u : (hi - lo == marker) ≡ false = ground arith in
          rw (d, t, s, w, u) (refl, (omega arith, refl))
    ]
