-- ===== src/Language/Source/Valid.antt =====
-- The invariant of source maps, and that `srcmap_add_file` keeps it.
use guage.Prelude.{
  ℕ, ◌+◌, ◌%◌, ◌<◌, ◌≡◌, refl, ap, List, [], ◌∷◌, map, arith, length, All, All-append,
}
use guage.Language.Source.{SourceFile, SourceMap, new_file, srcmap_new, srcmap_add_file}
use guage.Language.Span.{u32}
use guage.Language.Source.Lines.{line_ends, newlines, build_line_table_lem}
use guage.Language.Source.Files.{Chained-append, IsLaidOut}

-- A file has the table of its text.
pub record HasTable (f : SourceFile) : Type 0 where
  pub size_eq : f.size ≡ length f.source
  pub starts_eq : f.line_starts ≡ 0 ∷ line_ends 0 f.source
  pub count_eq : f.line_count ≡ newlines f.source + 1

pub record IsValid (map : SourceMap) : Type 0 where
  pub laid_out : IsLaidOut map
  pub tables : All HasTable map.files

pub new-IsValid : IsValid srcmap_new
unfolding srcmap_new
new-IsValid = record { laid_out = (refl, omega arith); tables = tt }

pub new_file-HasTable :
    (map : SourceMap) (filename source : List ℕ)
    → length source + 1 < u32
    → HasTable (new_file map filename source)
new_file-HasTable map filename source h =
    let e = build_line_table_lem source h in
    record { size_eq = refl; starts_eq = ap (λ p. p.0) e; count_eq = ap (λ p. p.1) e }

pub add_file-IsValid :
    (map : SourceMap) (filename source : List ℕ)
    → IsValid map
    → map.next_base + (length source + 1) < u32
    → IsValid (srcmap_add_file map filename source).1
unfolding srcmap_add_file
add_file-IsValid m filename source v fits =
    let f = new_file m filename source in
    let same : (m.next_base + (length source + 1)) % u32 ≡ m.next_base + (length source + 1) =
      omega arith in
    record {
      laid_out = (rw same (Chained-append 1 m.next_base m.files f v.laid_out.0 refl), rw same fits);
      tables =
          All-append HasTable m.files (f ∷ []) v.tables
            (new_file-HasTable m filename source (omega arith), tt);
    }
