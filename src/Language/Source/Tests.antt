-- ===== src/Language/Source/Tests.antt =====
-- Runs on small texts.
use guage.Prelude.{ℕ, ◌+◌, ◌%◌, ◌^◌, ◌≤◌, ◌≡◌, refl, some, List, [], ◌∷◌, arith, length, get_elem?}
use guage.Language.Span.{Span, SpanData}
use guage.Language.Source.{
  SourceMap, build_line_table, srcmap_new, srcmap_add_file, srcmap_file_for_pos, find_line,
  srcmap_resolve, srcmap_intern_span, srcmap_lookup_span, srcmap_line_text,
}
use guage.Language.Source.{new_file}
use guage.Language.Source.Texts.{lines}
use guage.Language.Source.LineText.{line_text-lines}
use guage.Language.Source.Valid.{new_file-HasTable}
use guage.Language.Source.Walk.{walk}
use guage.Language.Source.Valid.{new-IsValid}
use guage.Language.Source.Resolve.{add_files, resolve-add_files}
use guage.Language.Source.Interned.{intern_all, new-IsInterning, lookup-intern_span}

-- "a\nb\n" and "c"
abbrev two_lines : List ℕ
two_lines = 97 ∷ 10 ∷ 98 ∷ 10 ∷ []

abbrev letter : List ℕ
letter = 99 ∷ []

-- The newline of the second line.
second_line :
    srcmap_resolve (add_files srcmap_new ((letter, two_lines) ∷ (letter, letter) ∷ [])) 4
    ≡ record { filename = letter; line = 2; column = 2; byte_offset = 4; file_id = 0 }
unfolding srcmap_resolve srcmap_new srcmap_add_file srcmap_file_for_pos find_line build_line_table
second_line = refl

resolve-add_files_example :
    srcmap_resolve
      (add_files (srcmap_add_file srcmap_new letter two_lines).1 ((letter, letter) ∷ []))
      ((srcmap_add_file srcmap_new letter two_lines).0 + 3)
    ≡ record {
      filename = letter;
      line = (walk two_lines 3 1 1).0;
      column = (walk two_lines 3 1 1).1;
      byte_offset = srcmap_new.next_base + 3;
      file_id = length srcmap_new.files % 65536;
    }
unfolding srcmap_new
resolve-add_files_example =
    resolve-add_files srcmap_new letter two_lines ((letter, letter) ∷ []) 3 new-IsValid
      (omega arith) (omega arith)

abbrev long_span : SpanData
long_span = record { lo = 1; hi = 90000; ctxt = 2; file_id = 0 }

new_few : srcmap_new.interned_count + 1 + length (long_span ∷ []) ≤ 2 ^ 31
unfolding srcmap_new
new_few = omega arith

lookup-intern_span_example :
    (s : Span) × (m₁ : SourceMap) × (m₂ : SourceMap) × (srcmap_intern_span srcmap_new long_span
      ≡ some (s, m₁))
    × (intern_all m₁ (long_span ∷ []) ≡ some m₂)
    × (srcmap_lookup_span m₂ s ≡ some long_span)
lookup-intern_span_example =
    lookup-intern_span srcmap_new long_span (long_span ∷ []) new-IsInterning new_few

line_text-lines_example :
    srcmap_line_text (some (new_file srcmap_new letter two_lines)) 1 ≡ get_elem? (lines two_lines) 1
unfolding srcmap_new
line_text-lines_example =
    line_text-lines (new_file srcmap_new letter two_lines) 1
      (new_file-HasTable srcmap_new letter two_lines (omega arith))
