-- ===== src/SourceFile/File.antt =====
-- parser/source_file.go: `SourceFile`. Positions and offsets that a caller gives are numbers; an
-- offset that is computed can be negative and is an integer. `none` is a panic.
use gad.Prelude.{
  String, ℕ, zero, suc, ◌+◌, ◌-◌, Bool, false, ◌||◌, Option, none, some, List, [], ◌∷◌, ◌++◌, ltb,
  leb, ◌==◌, if◌then◌else◌, length, get_elem?, take, drop,
}
use gad.Prelude.Int.{ℤ, pos, negsuc, sub_ℕ}
use gad.Prelude.Result.{◌>>=◌}
use gad.SourceFile.Search.{search_ints}

pub record SourceFilePos : Type 0 where
  pub filename : String
  pub offset : ℤ
  pub line : ℤ
  pub column : ℤ

-- `index` is the place in the files of the set.
pub record SourceFile : Type 0 where
  pub name : String
  pub base : ℕ
  pub size : ℕ
  pub lines : List ℕ
  pub index : ℕ

abbrev pub no_pos : ℕ
no_pos = 0

abbrev pub zero_pos : SourceFilePos
zero_pos = record { filename = ""; offset = pos 0; line = pos 0; column = pos 0 }

unfoldable pub is_valid : SourceFilePos → Bool
is_valid p = elim p.line [ pos n ↦ ltb 0 n | negsuc n ↦ false ]

unfoldable pub line_count : SourceFile → ℕ
line_count f = length f.lines

-- The loop of `AddLine` on the lines, `i` counting down from their number: the first line that is
-- no smaller than the offset stops it. `append`, `copy` and the assignment put the offset at i-1.
unfoldable pub add_line_loop : ℕ → List ℕ → ℕ → Option (List ℕ)
add_line_loop zero lines offset = some (lines ++ offset ∷ [])
add_line_loop (suc i) lines offset =
    let rest = add_line_loop i lines offset in
    do
      off ← get_elem? lines i
      if off == offset
          then some lines
          else if ltb offset off
          then some (take i lines ++ offset ∷ drop i lines)
          else rest

-- On an empty list of lines the loop has no round and appends, as the source's case for it does.
unfoldable pub add_line : SourceFile → ℕ → Option SourceFile
add_line f offset =
    if leb f.size offset
    then some f
    else do lines ← add_line_loop (length f.lines) f.lines offset; some (record f { lines = lines })

unfoldable pub line_start : SourceFile → ℕ → Option ℕ
line_start f line =
    if ltb line 1 || ltb (length f.lines) line
    then none
    else do start ← get_elem? f.lines (line - 1); some (f.base + start)

unfoldable pub file_set_pos : SourceFile → ℕ → Option ℕ
file_set_pos f offset = if ltb f.size offset then none else some (f.base + offset)

unfoldable pub offset_of : SourceFile → ℕ → Option ℕ
offset_of f p = if ltb p f.base || ltb (f.base + f.size) p then none else some (p - f.base)

-- offset - start + 1
unfoldable pub column_at : ℤ → ℕ → ℤ
column_at (pos o) start = sub_ℕ (o + 1) start
column_at (negsuc n) start = sub_ℕ 0 (n + start)

unfoldable pub unpack : SourceFile → ℤ → Option (String × ℤ × ℤ)
unfolding column_at
unpack f offset = do
  i ← search_ints f.lines offset
  elim i [
    | negsuc n ↦ some (f.name, pos 0, pos 0)
    | pos n ↦ do start ← get_elem? f.lines n; some (f.name, pos (n + 1), column_at offset start)
  ]

unfoldable pub safe_position : SourceFile → ℕ → Option SourceFilePos
safe_position f p = do
  let offset = sub_ℕ p f.base
  u ← unpack f offset
  some (record { filename = u.0; offset = offset; line = u.1; column = u.2 })

unfoldable pub position : SourceFile → ℕ → Option SourceFilePos
position f p =
    if p == no_pos
    then some zero_pos
    else if ltb p f.base || ltb (f.base + f.size) p
    then none
    else safe_position f p

unfoldable pub line_of : SourceFile → ℕ → Option ℤ
line_of f p = do q ← position f p; some q.line

-- The loops that look for the last line at or before `p`, from the end.
unfoldable pub line_index_loop : ℕ → List ℕ → ℕ → Option ℕ
line_index_loop zero lines p = some 0
line_index_loop (suc i) lines p =
    let rest = line_index_loop i lines p in
    do start ← get_elem? lines i; if leb start p then some i else rest

unfoldable pub line_index_of : SourceFile → ℕ → Option ℕ
line_index_of f p = line_index_loop (length f.lines) f.lines p
