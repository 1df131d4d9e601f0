-- ===== src/Language/Source.antt =====
-- The source map of bootstrap/span.c: files laid out one after the other in a space of 32-bit byte
-- positions, the table of line starts of each, and the searches that turn a position into a line
-- and a column. Texts are lists of bytes; arrays that are filled up to a counter are lists, NULL is
-- `none`. calloc and realloc return memory; of the capacities only that of the interned spans is kept.
pub mod Lines
pub mod Walk
pub mod Files
pub mod Valid
pub mod Resolve
pub mod Texts
pub mod LineText
pub mod Interned
mod Tests
use guage.Prelude.{
  ℕ, zero, suc, ◌+◌, ◌-◌, ◌*◌, ◌/◌, ◌%◌, Bool, not, ◌&&◌, ◌||◌, Option, none, some, List, [], ◌∷◌,
  ◌++◌, map, ltb, leb, ◌==◌, if◌then◌else◌, length, get_elem?, get_or, set, take, drop,
}
use guage.Language.Span.{
  Span, SpanData, u16, u32, marker, span_is_none, span_is_interned, span_lo, span_hi,
}

pub record SourceFile : Type 0 where
  pub filename : List ℕ
  pub base : ℕ
  pub size : ℕ
  pub source : List ℕ
  pub line_starts : List ℕ
  pub line_count : ℕ
  pub file_id : ℕ

pub record SourceMap : Type 0 where
  pub files : List SourceFile
  pub next_base : ℕ
  -- What is written of the array of `interned_capacity` spans.
  pub interned_spans : List SpanData
  pub interned_count : ℕ
  pub interned_capacity : ℕ

pub record ResolvedPos : Type 0 where
  pub filename : List ℕ
  pub line : ℕ
  pub column : ℕ
  pub byte_offset : ℕ
  pub file_id : ℕ

pub record ResolvedSpan : Type 0 where
  pub start : Option ResolvedPos
  pub end : Option ResolvedPos
  pub line_text : Option (List ℕ)

-- `c == '\n'`
abbrev pub is_newline : ℕ → Bool
is_newline c = c == 10

-- The first loop of `build_line_table`.
abbrev pub count_lines : List ℕ → ℕ → ℕ
count_lines [] n = n
count_lines (c ∷ cs) n = count_lines cs (if is_newline c then (n + 1) % u32 else n)

-- The second loop, at byte `i`; `idx` is the number of entries written.
abbrev pub fill_lines : List ℕ → ℕ → ℕ → List ℕ → List ℕ
fill_lines [] i n starts = starts
fill_lines (c ∷ cs) i n starts =
    fill_lines cs (i + 1) n
      (if is_newline c && ltb (length starts) n then starts ++ ((i + 1) ∷ []) else starts)

-- `line_starts` and `line_count`.
unfoldable pub build_line_table : List ℕ → List ℕ × ℕ
build_line_table source = let n = count_lines source 1 in (fill_lines source 0 n (0 ∷ []), n)

unfoldable pub srcmap_new : SourceMap
srcmap_new = record {
  files = [];
  next_base = 1;
  interned_spans = [];
  interned_count = 0;
  interned_capacity = 16;
}

abbrev pub new_file : SourceMap → List ℕ → List ℕ → SourceFile
new_file map filename source = record {
  filename = filename;
  base = map.next_base;
  size = length source;
  source = source;
  line_starts = (build_line_table source).0;
  line_count = (build_line_table source).1;
  file_id = length map.files % u16;
}

-- `source_len` is the length of `source`. The result is the base of the file.
unfoldable pub srcmap_add_file : SourceMap → List ℕ → List ℕ → ℕ × SourceMap
srcmap_add_file map filename source = (
  map.next_base,
  record map {
    files = map.files ++ (new_file map filename source ∷ []);
    next_base = (map.next_base + (length source + 1)) % u32;
  },
)

abbrev pub no_file : SourceFile
no_file = record {
  filename = [];
  base = 0;
  size = 0;
  source = [];
  line_starts = [];
  line_count = 0;
  file_id = 0;
}

-- Behind the loop of `srcmap_file_for_pos`: the file before `lo` is tried.
abbrev pub fallback : List SourceFile → ℕ → ℕ → Option SourceFile
fallback files pos zero = none
fallback files pos (suc lo) =
    let f = get_or files lo no_file in
    if leb f.base pos && ltb pos ((f.base + f.size) % u32) then some f else none

-- The loop of `srcmap_file_for_pos`, by rounds.
abbrev pub file_loop : ℕ → List SourceFile → ℕ → ℕ → ℕ → Option SourceFile
file_loop zero files pos lo hi = none
file_loop (suc n) files pos lo hi =
    let mid = lo + (hi - lo) / 2 in
    let f = get_or files mid no_file in
    let right = ltb ((f.base + f.size) % u32) pos in
    let left = ltb pos f.base in
    let rest = file_loop n files pos (if right then mid + 1 else lo) (if right then hi else mid) in
    if ltb lo hi
    then if right then rest else if left then rest else some f
    else fallback files pos lo

unfoldable pub srcmap_file_for_pos : SourceMap → ℕ → Option SourceFile
srcmap_file_for_pos map pos =
    if length map.files == 0 || pos == 0
    then none
    else file_loop (suc (length map.files)) map.files pos 0 (length map.files)

-- The loop of `find_line`, by rounds.
abbrev pub line_loop : ℕ → List ℕ → ℕ → ℕ → ℕ → ℕ
line_loop zero starts offset lo hi = lo
line_loop (suc n) starts offset lo hi =
    let mid = lo + (hi - lo) / 2 in
    let before = leb (get_or starts mid 0) offset in
    let rest =
      line_loop n starts offset (if before then mid else lo) (if before then hi else mid) in
    if ltb (lo + 1) hi then rest else lo

unfoldable pub find_line : SourceFile → ℕ → ℕ
find_line file offset = line_loop file.line_count file.line_starts offset 0 file.line_count

-- "<unknown>"
abbrev pub unknown : List ℕ
unknown = 60 ∷ 117 ∷ 110 ∷ 107 ∷ 110 ∷ 111 ∷ 119 ∷ 110 ∷ 62 ∷ []

abbrev pub nowhere : ℕ → ResolvedPos
nowhere pos = record { filename = unknown; line = 0; column = 0; byte_offset = pos; file_id = 0 }

unfoldable pub srcmap_resolve : SourceMap → ℕ → ResolvedPos
srcmap_resolve map pos = if pos == 0 then nowhere 0 else elim (srcmap_file_for_pos map pos) [
  | none ↦ nowhere pos
  | some file ↦
      let offset = (pos + u32 - file.base) % u32 in
      let line_idx = find_line file offset in
      record {
        filename = file.filename;
        line = (line_idx + 1) % u32;
        column = (offset + u32 - get_or file.line_starts line_idx 0 + 1) % u32;
        byte_offset = pos;
        file_id = file.file_id;
      }
]

-- Where the line ends: before its newline, or at the end of the file.
unfoldable pub line_end : SourceFile → ℕ → ℕ → ℕ
line_end file line_idx start =
    if ltb (line_idx + 1) file.line_count
    then (let end = get_or file.line_starts (line_idx + 1) 0 in
        if ltb start end && is_newline (get_or file.source (end - 1) 0) then end - 1 else end)
    else file.size

-- The bytes from the pointer returned, as many as the length written.
unfoldable pub line_slice : SourceFile → ℕ → List ℕ
line_slice file line_idx =
    let start = get_or file.line_starts line_idx 0 in
    take (line_end file line_idx start - start) (drop start file.source)

unfoldable pub srcmap_line_text : Option SourceFile → ℕ → Option (List ℕ)
srcmap_line_text none line_idx = none
srcmap_line_text (some file) line_idx =
    if leb file.line_count line_idx then none else some (line_slice file line_idx)

-- A span that is none leaves the zeroed result.
unfoldable pub srcmap_resolve_span : SourceMap → Span → ResolvedSpan
srcmap_resolve_span map span =
    if span_is_none span
    then record { start = none; end = none; line_text = none }
    else let lo = span_lo span in
      record {
        start = some (srcmap_resolve map lo);
        end = some (srcmap_resolve map (span_hi span));
        line_text = elim (srcmap_file_for_pos map lo) [
          | none ↦ none
          | some file ↦ some (line_slice file (find_line file ((lo + u32 - file.base) % u32)))
        ];
      }

-- The capacity after the test at the start of `srcmap_intern_span`.
abbrev pub grown_capacity : SourceMap → ℕ
grown_capacity map =
    if leb map.interned_capacity map.interned_count
    then (map.interned_capacity * 2) % u32
    else map.interned_capacity

-- `interned_spans[idx] = data`
abbrev pub write_span : List SpanData → ℕ → SpanData → List SpanData
write_span spans idx data_ =
    if ltb idx (length spans) then set spans idx data_ else spans ++ (data_ ∷ [])

-- `none` is a write past the end of the array.
unfoldable pub srcmap_intern_span : SourceMap → SpanData → Option (Span × SourceMap)
srcmap_intern_span map data_ =
    if ltb map.interned_count (grown_capacity map)
    then some (
      record { lo = map.interned_count; len = marker; ctxt = marker },
      record map {
        interned_spans = write_span map.interned_spans map.interned_count data_;
        interned_count = (map.interned_count + 1) % u32;
        interned_capacity = grown_capacity map;
      },
    )
    else none

-- A failed assert is `none`.
unfoldable pub srcmap_lookup_span : SourceMap → Span → Option SpanData
srcmap_lookup_span map s =
    if not (span_is_interned s)
    then some (record { lo = s.lo; hi = (s.lo + s.len) % u32; ctxt = s.ctxt; file_id = 0 })
    else if ltb s.lo map.interned_count
    then get_elem? map.interned_spans s.lo
    else none
