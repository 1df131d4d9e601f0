-- ===== src/Language/Span.antt =====
-- The 8-byte spans of bootstrap/span.h: a union of an inline form (start, length, context) and an
-- interned form (index and two markers of 0xFFFF), which share their bytes. `lo` stands for
-- `inline_span.lo` and `interned.index`, `len` for `len` and `marker1`, `ctxt` for `ctxt` and
-- `marker2`.
pub mod Laws
mod Tests
use guage.Prelude.{ℕ, ◌+◌, ◌-◌, ◌%◌, ◌^◌, Bool, ◌&&◌, ltb, leb, ◌==◌, if◌then◌else◌}

pub record Span : Type 0 where
  pub lo : ℕ
  pub len : ℕ
  pub ctxt : ℕ

pub record SpanData : Type 0 where
  pub lo : ℕ
  pub hi : ℕ
  pub ctxt : ℕ
  pub file_id : ℕ

abbrev pub u16 : ℕ
u16 = 2 ^ 16

abbrev pub u32 : ℕ
u32 = 2 ^ 32

-- `SPAN_INTERNED_MARKER`
abbrev pub marker : ℕ
marker = 65535

-- `0xFFFE`
abbrev pub max_len : ℕ
max_len = 65534

unfoldable pub span_new : ℕ → ℕ → Span
span_new lo hi =
    let len = (hi + u32 - lo) % u32 in
    if leb len max_len
    then record { lo = lo; len = len % u16; ctxt = 0 }
    else record { lo = lo; len = max_len; ctxt = 0 }

unfoldable pub span_with_ctxt : ℕ → ℕ → ℕ → Span
span_with_ctxt lo hi ctxt =
    let len = (hi + u32 - lo) % u32 in
    if leb len max_len && ltb ctxt marker
    then record { lo = lo; len = len % u16; ctxt = ctxt }
    else record {
      lo = lo;
      len = if leb len max_len then len % u16 else max_len;
      ctxt = if ltb ctxt marker then ctxt else 0;
    }

-- `s.raw == 0`
unfoldable pub span_is_none : Span → Bool
span_is_none s = s.lo == 0 && (s.len == 0 && s.ctxt == 0)

unfoldable pub span_is_interned : Span → Bool
span_is_interned s = s.len == marker && s.ctxt == marker

unfoldable pub span_lo : Span → ℕ
unfolding span_is_interned
span_lo s = if span_is_interned s then 0 else s.lo

unfoldable pub span_hi : Span → ℕ
unfolding span_is_interned
span_hi s = if span_is_interned s then 0 else (s.lo + s.len) % u32

unfoldable pub span_ctxt : Span → ℕ
unfolding span_is_interned
span_ctxt s = if span_is_interned s then 0 else s.ctxt
