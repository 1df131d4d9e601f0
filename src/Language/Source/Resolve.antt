-- ===== src/Language/Source/Resolve.antt =====
-- Positions resolved (bootstrap/span.c: `srcmap_resolve`).
use guage.Prelude.{
  ℕ, zero, suc, ◌+◌, ◌-◌, ◌%◌, ◌≤◌, ◌<◌, ◌≡◌, refl, sym, ap, ap₂, ◌∙◌, false, some, List, [], ◌∷◌,
  arith, ◌==◌, length, get_or, length-append, get_or-append_left, get_or-append_last, All-get_or,
}
use guage.Language.Source.{
  SourceFile, SourceMap, ResolvedPos, no_file, new_file, nowhere, srcmap_file_for_pos,
  srcmap_resolve, srcmap_add_file,
}
use guage.Language.Span.{u32}
use guage.Language.Source.Lines.{find_line_lem, newlines-take_le, newlines_le}
use guage.Language.Source.Walk.{walk, walk_lem, start_le}
use guage.Language.Source.Files.{Chained-within, Chained-cover, file_for_pos-found}
use guage.Language.Source.Valid.{HasTable, IsValid, add_file-IsValid}

abbrev at_line : SourceFile → ℕ → ℕ → ℕ → ResolvedPos
at_line f pos line column = record {
  filename = f.filename;
  line = line;
  column = column;
  byte_offset = pos;
  file_id = f.file_id;
}

-- What a reader expects of byte `offset` of a file.
unfoldable pub location : SourceFile → ℕ → ResolvedPos
location f offset =
    at_line f (f.base + offset) (walk f.source offset 1 1).0 (walk f.source offset 1 1).1

pub found_at :
    (m : SourceMap) (f : SourceFile) (offset : ℕ)
    → srcmap_file_for_pos m (f.base + offset) ≡ some f
    → HasTable f
    → 0 < f.base
    → offset ≤ f.size
    → f.base + f.size + 1 < u32
    → srcmap_resolve m (f.base + offset) ≡ location f offset
unfolding srcmap_resolve location
found_at m f offset e t h o fits =
    let z : (f.base + offset == 0) ≡ false = ground arith in
    let q : (f.base + offset + u32 - f.base) % u32 ≡ offset = omega arith in
    let l = find_line_lem f offset t.starts_eq t.count_eq in
    let w = walk_lem f.source offset (omega (arith, t.size_eq)) in
    let b = start_le f.source offset (omega (arith, t.size_eq)) in
    let c = newlines-take_le offset f.source in
    let d = newlines_le f.source in
    rw (z, e, q, l, t.starts_eq, w)
      (ap₂ (at_line f (f.base + offset)) (omega (arith, t.size_eq)) (omega (arith, t.size_eq)))

-- A byte of a file of the map resolves to its place in that file.
pub resolve-location :
    (m : SourceMap) (k offset : ℕ)
    → IsValid m
    → k < length m.files
    → offset ≤ (get_or m.files k no_file).size
    → srcmap_resolve m ((get_or m.files k no_file).base + offset)
      ≡ location (get_or m.files k no_file) offset
resolve-location m k offset v l o =
    let f = get_or m.files k no_file in
    let w = Chained-within 1 m.next_base m.files k v.laid_out.0 l in
    found_at m f offset
      (file_for_pos-found m v.laid_out k (f.base + offset) l (omega arith) (omega arith))
      (All-get_or HasTable m.files k no_file v.tables l) (omega (arith, w.0)) o
      (omega (arith, w.1, v.laid_out.1))

-- So does a byte of a file just registered.
resolve-add_file :
    (m : SourceMap) (filename source : List ℕ) (offset : ℕ)
    → IsValid m
    → m.next_base + (length source + 1) < u32
    → offset ≤ length source
    → srcmap_resolve
        (srcmap_add_file m filename source).1
        ((srcmap_add_file m filename source).0 + offset)
      ≡ record {
        filename = filename;
        line = (walk source offset 1 1).0;
        column = (walk source offset 1 1).1;
        byte_offset = m.next_base + offset;
        file_id = length m.files % 65536;
      }
unfolding srcmap_add_file location
resolve-add_file m filename source offset v fits o =
    let f = new_file m filename source in
    let last = get_or-append_last m.files f no_file in
    let m' = (srcmap_add_file m filename source).1 in
    let longer = length-append m.files (f ∷ []) in
    let r =
      resolve-location m' (length m.files) offset (add_file-IsValid m filename source v fits)
        (omega (arith, longer)) in
    rw last at r o

resolve_zero : (m : SourceMap) → srcmap_resolve m 0 ≡ nowhere 0
unfolding srcmap_resolve
resolve_zero m = refl

same_file :
    (m n : SourceMap) (pos : ℕ)
    → srcmap_file_for_pos n pos ≡ srcmap_file_for_pos m pos
    → srcmap_resolve n pos ≡ srcmap_resolve m pos
unfolding srcmap_resolve
same_file m n pos e = rw e refl

-- Positions of earlier files resolve as before.
resolve-add_file_old :
    (m : SourceMap) (filename source : List ℕ) (pos : ℕ)
    → IsValid m
    → m.next_base + (length source + 1) < u32
    → pos < m.next_base
    → srcmap_resolve (srcmap_add_file m filename source).1 pos ≡ srcmap_resolve m pos
unfolding srcmap_add_file
resolve-add_file_old m filename source zero v fits l =
    resolve_zero (srcmap_add_file m filename source).1 ∙ sym (resolve_zero m)
resolve-add_file_old m filename source (suc p) v fits l =
    let f = new_file m filename source in
    let n = (srcmap_add_file m filename source).1 in
    let w = add_file-IsValid m filename source v fits in
    let (k, c, x, y) = Chained-cover 1 m.next_base m.files (suc p) v.laid_out.0 (omega arith) l in
    let same = get_or-append_left m.files (f ∷ []) k no_file c in
    let bases = ap SourceFile.base same in
    let sizes = ap SourceFile.size same in
    let longer = length-append m.files (f ∷ []) in
    same_file m n (suc p) (
      file_for_pos-found n w.laid_out k (suc p) (omega (arith, longer)) (omega (arith, bases))
        (omega (arith, bases, sizes))
      ∙ (ap some same ∙ sym (file_for_pos-found m v.laid_out k (suc p) c x y)))

-- Files registered one after the other, as names and texts.
abbrev pub add_files : SourceMap → List (List ℕ × List ℕ) → SourceMap
add_files m [] = m
add_files m (f ∷ fs) = add_files (srcmap_add_file m f.0 f.1).1 fs

-- The positions that they take.
abbrev pub space : List (List ℕ × List ℕ) → ℕ
space [] = 0
space (f ∷ fs) = length f.1 + 1 + space fs

add_file-next_base :
    (m : SourceMap) (filename source : List ℕ)
    → m.next_base + (length source + 1) < u32
    → (srcmap_add_file m filename source).1.next_base ≡ m.next_base + (length source + 1)
unfolding srcmap_add_file
add_file-next_base m filename source h = omega arith

add_file-base :
    (m : SourceMap) (filename source : List ℕ) → (srcmap_add_file m filename source).0 ≡ m.next_base
unfolding srcmap_add_file
add_file-base m filename source = refl

-- The invariant holds whatever files are registered, while positions are left.
pub add_files-IsValid :
    (m : SourceMap) (fs : List (List ℕ × List ℕ))
    → IsValid m
    → m.next_base + space fs < u32
    → IsValid (add_files m fs)
add_files-IsValid m [] v h = v
add_files-IsValid m (f ∷ fs) v h =
    let e = add_file-next_base m f.0 f.1 (omega arith) in
    add_files-IsValid (srcmap_add_file m f.0 f.1).1 fs (add_file-IsValid m f.0 f.1 v (omega arith))
      (omega (arith, e))

resolve-add_files_old :
    (m : SourceMap) (fs : List (List ℕ × List ℕ)) (pos : ℕ)
    → IsValid m
    → m.next_base + space fs < u32
    → pos < m.next_base
    → srcmap_resolve (add_files m fs) pos ≡ srcmap_resolve m pos
resolve-add_files_old m [] pos v h l = refl
resolve-add_files_old m (f ∷ fs) pos v h l =
    let e = add_file-next_base m f.0 f.1 (omega arith) in
    resolve-add_files_old (srcmap_add_file m f.0 f.1).1 fs pos
      (add_file-IsValid m f.0 f.1 v (omega arith)) (omega (arith, e)) (omega (arith, e))
    ∙ resolve-add_file_old m f.0 f.1 pos v (omega arith) l

-- In a valid source map, after a file is registered and then any others, all within 32-bit
-- positions, srcmap_resolve of the base returned plus an offset of at most the size is the file,
-- its id and the line and column that one finds by walking over the bytes from the start of the
-- text.
pub resolve-add_files :
    (m : SourceMap) (filename source : List ℕ) (later : List (List ℕ × List ℕ)) (offset : ℕ)
    → IsValid m
    → m.next_base + (length source + 1) + space later < u32
    → offset ≤ length source
    → srcmap_resolve
        (add_files (srcmap_add_file m filename source).1 later)
        ((srcmap_add_file m filename source).0 + offset)
      ≡ record {
        filename = filename;
        line = (walk source offset 1 1).0;
        column = (walk source offset 1 1).1;
        byte_offset = m.next_base + offset;
        file_id = length m.files % 65536;
      }
resolve-add_files m filename source later offset v fits o =
    let e = add_file-next_base m filename source (omega arith) in
    let b = add_file-base m filename source in
    resolve-add_files_old (srcmap_add_file m filename source).1 later
      ((srcmap_add_file m filename source).0 + offset)
      (add_file-IsValid m filename source v (omega arith)) (omega (arith, e)) (omega (arith, e, b))
    ∙ resolve-add_file m filename source offset v (omega arith) o
