-- ===== src/SourceFile/FileSet.antt =====
-- parser/source_file.go: `SourceFileSet`. The cached last file is its place in the list of files,
-- since the source keeps a pointer to it. `none` of the outer option is a panic.
use gad.Prelude.{
  String, ℕ, ◌+◌, Bool, ◌&&◌, ◌||◌, Option, none, some, List, [], ◌∷◌, ◌++◌, ltb, leb, ◌==◌,
  if◌then◌else◌, length, get_elem?,
}
use gad.Prelude.Int.{ℤ, pos, negsuc, sub_ℕ}
use gad.Prelude.Result.{◌>>=◌}
use gad.SourceFile.Search.{sort_search}
use gad.SourceFile.File.{SourceFile, SourceFilePos, no_pos, zero_pos, safe_position}

pub record SourceFileSet : Type 0 where
  pub base : ℕ
  pub files : List SourceFile
  pub last_file : Option ℕ

abbrev pub new_file_set : SourceFileSet
new_file_set = record { base = 1; files = []; last_file = none }

-- A negative base asks for the set's; a base below the set's and a negative size panic.
unfoldable pub base_or : ℤ → ℕ → ℕ
base_or (pos n) base = n
base_or (negsuc n) base = base

-- The largest `int`; the sum of two more than that, and of 1, is negative.
abbrev pub max_int : ℕ
max_int = 9223372036854775807

-- A base or a size is an `int`, and so at most `max_int`.
unfoldable pub add_file : SourceFileSet → String → ℤ → ℤ → Option (SourceFileSet × SourceFile)
unfolding base_or
add_file s filename base (negsuc n) = none
add_file s filename base (pos size) =
    let b = base_or base s.base in
    if ltb b s.base || ltb max_int (b + size + 1)
    then none
    else let f : SourceFile = record {
      name = filename;
      base = b;
      size = size;
      lines = 0 ∷ [];
      index = length s.files;
    } in
      some (
        record {
          base = b + size + 1;
          files = s.files ++ f ∷ [];
          last_file = some (length s.files);
        },
        f,
      )

unfoldable pub search_files : List SourceFile → ℕ → Option ℤ
search_files a x = do
  i ← sort_search (length a) (λ i. do f ← get_elem? a i; some (ltb x f.base))
  some (sub_ℕ i 1)

unfoldable pub contains : SourceFile → ℕ → Bool
contains f p = leb f.base p && leb p (f.base + f.size)

-- The search, without the cache. The result has the place of the file.
unfoldable pub look_up : SourceFileSet → ℕ → Option (Option (ℕ × SourceFile) × SourceFileSet)
look_up s p = do
  i ← search_files s.files p
  elim i [
    | negsuc n ↦ some (none, s)
    | pos n ↦ do
      f ← get_elem? s.files n
      if leb p (f.base + f.size)
          then some (some (n, f), record s { last_file = some n })
          else some (none, s)
  ]

unfoldable pub cached : SourceFileSet → ℕ → Option (ℕ × SourceFile)
cached s p = do n ← s.last_file; f ← get_elem? s.files n; if contains f p then some (n, f) else none

unfoldable pub file_at : SourceFileSet → ℕ → Option (Option (ℕ × SourceFile) × SourceFileSet)
file_at s p = elim (cached s p) [ some r ↦ some (some r, s) | none ↦ look_up s p ]

unfoldable pub file : SourceFileSet → ℕ → Option (Option (ℕ × SourceFile) × SourceFileSet)
file s p = if p == no_pos then some (none, s) else file_at s p

unfoldable pub position : SourceFileSet → ℕ → Option (SourceFilePos × SourceFileSet)
position s p = if p == no_pos then some (zero_pos, s) else do
  r ← file_at s p
  elim r.0 [ none ↦ some (zero_pos, r.1) | some nf ↦ do q ← safe_position nf.1 p; some (q, r.1) ]
