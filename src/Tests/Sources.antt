-- ===== src/Tests/Sources.antt =====
-- A set with two files.
use mathlib.Core.Option
use gad.Prelude.{
  ℕ, suc, ◌+◌, ◌-◌, ◌<◌, ◌≤◌, ◌≡◌, ◌↔◌, refl, ◌⊎◌, Bool, true, false, not, Option, none, some, List,
  [], ◌∷◌, ◌++◌, leb, get_elem?, arith,
}
use gad.Prelude.Int.{pos, negsuc, sub_ℕ, leb_int}
use gad.Prelude.Result.{◌>>=◌}
use gad.SourceFile.Search.{search_ints, sort_search}
use gad.SourceFile.Search.Laws.{sort_search_least, search_ints-eq}
use gad.SourceFile.File
use gad.SourceFile.FileSet
use gad.SourceFile.File.{SourceFile, SourceFilePos, add_line, no_pos, zero_pos, unpack, line_start}
use gad.SourceFile.FileSet.{SourceFileSet, new_file_set, add_file, max_int, base_or, contains, file}
use gad.SourceFile.Lines.{IsSorted, add_line-IsSorted_iff}
use gad.SourceFile.Positions.{unpack-LineAt, position-line_start}
use gad.SourceFile.Lookup.{IsFileSet, Answers}
use gad.SourceFile.Sets.{file-Answers, add_file-IsFileSet, position-file}

abbrev first_file : SourceFile
first_file = record { name = "a.gad"; base = 1; size = 20; lines = 0 ∷ 5 ∷ 9 ∷ []; index = 0 }

abbrev second_file : SourceFile
second_file = record { name = "b.gad"; base = 22; size = 4; lines = 0 ∷ []; index = 1 }

abbrev two_files : SourceFileSet
two_files = record { base = 27; files = first_file ∷ second_file ∷ []; last_file = some 0 }

two_files-IsFileSet : IsFileSet two_files
two_files-IsFileSet = (omega arith, refl, (omega arith, refl, omega arith))

abbrev above_5 : ℕ → Option Bool
above_5 i = some (leb 5 i)

sort_search_least_example :
    (r : ℕ) × (sort_search 8 above_5 ≡ some r)
    × (r ≤ 8)
    × ((k : ℕ) → k < r → above_5 k ≡ some false)
    × ((k : ℕ) → r ≤ k → k < 8 → above_5 k ≡ some true)
sort_search_least_example =
    sort_search_least 8 above_5 (λ i h. (leb 5 i, refl)) (λ i k le h e. ground (arith, e, le))

search_ints-eq_example :
    search_ints (0 ∷ 5 ∷ 9 ∷ []) (pos 6)
    ≡ Option.map
        (λ i. sub_ℕ i 1)
        (sort_search 3 (λ i. do v ← get_elem? (0 ∷ 5 ∷ 9 ∷ []) i; some (not (leb_int v (pos 6)))))
search_ints-eq_example = search_ints-eq (0 ∷ 5 ∷ 9 ∷ []) (pos 6)

-- A line that starts before the last line but one goes to the wrong place.
add_line-IsSorted_iff_example :
    (lines : List ℕ) × (add_line first_file 2 ≡ some (record first_file { lines = lines }))
    × (IsSorted lines ↔ (5 < 2))
add_line-IsSorted_iff_example =
    add_line-IsSorted_iff first_file (0 ∷ []) 5 9 2 refl (omega arith, (omega arith, tt))
      (omega arith)

first_file-IsSorted : IsSorted first_file.lines
first_file-IsSorted = (omega arith, (omega arith, tt))

unpack-LineAt_example :
    (k : ℕ) × (start : ℕ) × ((unpack first_file (pos 6)
        ≡ some ("a.gad", pos (k + 1), pos (7 - start)))
      × (get_elem? first_file.lines k ≡ some start)
      × (start ≤ 6)
      × ((next : ℕ) → get_elem? first_file.lines (suc k) ≡ some next → 6 < next))
unpack-LineAt_example = unpack-LineAt first_file 6 first_file-IsSorted refl

position-line_start_example :
    (line : ℕ) × (column : ℕ) × (start : ℕ) × ((File.position first_file 7
        ≡ some
            (record { filename = "a.gad"; offset = pos 6; line = pos line; column = pos column }))
      × (line_start first_file line ≡ some start)
      × (start + column ≡ 8)
      × (1 ≤ column)
      × ((next : ℕ) → line_start first_file (line + 1) ≡ some next → 7 < next))
position-line_start_example =
    position-line_start first_file 7 first_file-IsSorted refl (λ e. omega (arith, e)) (omega arith)
      (omega arith)

file-Answers_example :
    (r : Option (ℕ × SourceFile)) × (s' : SourceFileSet) × ((file two_files 23 ≡ some (r, s'))
      × (s'.files ≡ two_files.files)
      × (s'.base ≡ 27)
      × Answers two_files.files 23 r)
file-Answers_example = file-Answers two_files 23 two_files-IsFileSet

add_file-IsFileSet_example :
    (27 ≤ 27
      → 31 ≤ max_int
      → (s' : SourceFileSet) × (f : SourceFile) × ((add_file two_files "c.gad" (negsuc 0) (pos 3)
            ≡ some (s', f))
          × IsFileSet s'
          × (s'.files ≡ two_files.files ++ f ∷ [])
          × (get_elem? s'.files f.index ≡ some f)
          × (f.name ≡ "c.gad")
          × (f.size ≡ 3)
          × (27 ≤ f.base)
          × (f.lines ≡ 0 ∷ [])))
    × ((27 < 27) ⊎ (max_int < 31) → add_file two_files "c.gad" (negsuc 0) (pos 3) ≡ none)
unfolding base_or
add_file-IsFileSet_example = add_file-IsFileSet two_files "c.gad" (negsuc 0) 3 two_files-IsFileSet

position-file_example :
    ((n : ℕ) (f : SourceFile)
      → get_elem? two_files.files n ≡ some f
      → contains f 23 ≡ true
      → (s' : SourceFileSet) × ((FileSet.position two_files 23
            ≡ Option.map (λ q. (q, s')) (File.position f 23))
          × (s'.files ≡ two_files.files)))
    × (((n : ℕ) (f : SourceFile) → get_elem? two_files.files n ≡ some f → contains f 23 ≡ false)
        → (s' : SourceFileSet) × ((FileSet.position two_files 23 ≡ some (zero_pos, s'))
            × (s'.files ≡ two_files.files)))
position-file_example = position-file two_files 23 two_files-IsFileSet
