-- ===== src/Language/Source/Interned.antt =====
-- Spans that are kept in the source map (bootstrap/span.c: `srcmap_intern_span`,
-- `srcmap_lookup_span`).
use guage.Prelude.{
  ◌+◌, ◌%◌, ◌^◌, ◌≤◌, ◌<◌, dec_lt, ◌≡◌, refl, sym, ◌∙◌, true, false, Option, none, some, List, [],
  ◌∷◌, ◌++◌, arith, ltb, leb, lt→ltb, length, length-append, append_nil, get_elem?-append_left,
  get_elem?-append_last,
}
use mathlib.Core.List.{append_assoc}
use guage.Language.Span.{Span, SpanData, u32, marker, span_is_interned}
use guage.Language.Source.{
  SourceMap, srcmap_new, grown_capacity, srcmap_intern_span, srcmap_lookup_span,
}

-- The count is that of the spans written, and fits the array.
pub record IsInterning (m : SourceMap) : Type 0 where
  pub counted : length m.interned_spans ≡ m.interned_count
  pub fits : m.interned_count ≤ m.interned_capacity
  pub nonempty : 0 < m.interned_capacity
  pub word : m.interned_capacity < u32

pub new-IsInterning : IsInterning srcmap_new
unfolding srcmap_new
new-IsInterning = record {
  counted = refl;
  fits = omega arith;
  nonempty = omega arith;
  word = omega arith;
}

-- Spans interned one after the other; `none` when one of them is written past the array.
unfoldable pub intern_all : SourceMap → List SpanData → Option SourceMap
intern_all m [] = some m
intern_all m (d ∷ ds) = elim (srcmap_intern_span m d) [
  | none ↦ none
  | some (s, m') ↦ intern_all m' ds
]

abbrev interned : SourceMap → SpanData → SourceMap
interned m d = record m {
  interned_spans = m.interned_spans ++ (d ∷ []);
  interned_count = m.interned_count + 1;
  interned_capacity = grown_capacity m;
}

abbrev handle : SourceMap → Span
handle m = record { lo = m.interned_count; len = marker; ctxt = marker }

room_grows :
    (m : SourceMap)
    → IsInterning m
    → m.interned_count < 2 ^ 31
    → (m.interned_count < grown_capacity m) × (0 < grown_capacity m) × (grown_capacity m < u32)
room_grows m v h = elim (dec_lt m.interned_count m.interned_capacity) [
  | yes l ↦
      let b : leb m.interned_capacity m.interned_count ≡ false = ground arith in
      rw b (l, v.nonempty, v.word)
  | no l ↦
      let b : leb m.interned_capacity m.interned_count ≡ true = ground arith in
      rw b (
        omega (arith, v.fits, v.nonempty),
        omega (arith, v.fits, v.nonempty),
        omega (arith, v.fits),
      )
]

intern_lem :
    (m : SourceMap) (d : SpanData)
    → IsInterning m
    → m.interned_count < 2 ^ 31
    → srcmap_intern_span m d ≡ some (handle m, interned m d)
unfolding srcmap_intern_span
intern_lem m d v h =
    let room : ltb m.interned_count (grown_capacity m) ≡ true = lt→ltb _ _ (room_grows m v h).0 in
    let last : ltb m.interned_count (length m.interned_spans) ≡ false = ground (arith, v.counted) in
    let next : (m.interned_count + 1) % u32 ≡ m.interned_count + 1 = omega arith in
    rw (room, last, next) refl

interned-IsInterning :
    (m : SourceMap) (d : SpanData)
    → IsInterning m
    → m.interned_count < 2 ^ 31
    → IsInterning (interned m d)
interned-IsInterning m d v h =
    let (more, pos, word) = room_grows m v h in
    record {
      counted = omega (arith, length-append m.interned_spans (d ∷ []), v.counted);
      fits = omega (arith, more);
      nonempty = pos;
      word = word;
    }

-- What the later spans leave of the map.
record Later (m m' : SourceMap) (ds : List SpanData) : Type 0 where
  pub ends : intern_all m ds ≡ some m'
  pub spans : m'.interned_spans ≡ m.interned_spans ++ ds
  pub count : m'.interned_count ≡ m.interned_count + length ds

intern_all-Later :
    (m : SourceMap) (ds : List SpanData)
    → IsInterning m
    → m.interned_count + length ds ≤ 2 ^ 31
    → (m' : SourceMap) × Later m m' ds
unfolding intern_all
intern_all-Later m [] v h =
    (m, record { ends = refl; spans = sym (append_nil m.interned_spans); count = omega arith })
intern_all-Later m (d ∷ ds) v h =
    let small : m.interned_count < 2 ^ 31 = omega arith in
    let (m', l) =
      intern_all-Later (interned m d) ds (interned-IsInterning m d v small) (omega arith) in
    (
      m',
      record {
        ends = rw (intern_lem m d v small, intern_all) l.ends;
        spans = l.spans ∙ append_assoc m.interned_spans (d ∷ []) ds;
        count = omega (arith, l.count);
      },
    )

-- In a source map whose count and capacity fit its interned spans, srcmap_intern_span of a span
-- and of any later ones, up to 2 ^ 31 spans in all, succeed without a write past the array, and
-- srcmap_lookup_span of the handle that the first one returned is then the span that was interned.
pub lookup-intern_span :
    (m : SourceMap) (d : SpanData) (later : List SpanData)
    → IsInterning m
    → m.interned_count + 1 + length later ≤ 2 ^ 31
    → (s : Span) × (m₁ : SourceMap) × (m₂ : SourceMap) × (srcmap_intern_span m d ≡ some (s, m₁))
      × (intern_all m₁ later ≡ some m₂)
      × (srcmap_lookup_span m₂ s ≡ some d)
unfolding srcmap_lookup_span span_is_interned
lookup-intern_span m d later v h =
    let small : m.interned_count < 2 ^ 31 = omega arith in
    let (m₂, l) =
      intern_all-Later (interned m d) later (interned-IsInterning m d v small) (omega arith) in
    let k = length-append m.interned_spans (d ∷ []) in
    let t : ltb m.interned_count m₂.interned_count ≡ true = lt→ltb _ _ (omega (arith, l.count)) in
    (
      handle m,
      interned m d,
      m₂,
      intern_lem m d v small,
      l.ends,
      rw (t, l.spans, ← v.counted)
          (get_elem?-append_left (m.interned_spans ++ (d ∷ [])) later (length m.interned_spans)
              (omega (arith, k))
            ∙ get_elem?-append_last m.interned_spans d),
    )
