-- ===== src/Language/Span/Tests.antt =====
-- A span that is too long.
use guage.Prelude.{◌≡◌, refl}
use guage.Language.Span.{span_new, span_hi, span_is_interned}

clamped : span_hi (span_new 10 100000) ≡ 65544
unfolding span_new span_hi span_is_interned
clamped = refl
