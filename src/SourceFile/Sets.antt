-- ===== src/SourceFile/Sets.antt =====
-- What a set of files promises: `AddFile`, `File` and `Position`.
use mathlib.Core.Option
use mathlib.Core.Option.{some-injective}
use native.Mathlib.Decide.{ℕ_discrete}
use gad.Prelude.{
  String, ℕ, ◌+◌, ◌<◌, ◌≤◌, ◌≡◌, refl, ◌⊎◌, inl, inr, true, false, Option-cases, Option, none, some,
  [], ◌∷◌, ◌++◌, length, get_elem?, get_elem?-length, arith,
}
use gad.Prelude.Int.{ℤ, pos}
use gad.SourceFile.File.{SourceFile, SourceFilePos, no_pos, zero_pos, safe_position}
use gad.SourceFile.File
use gad.SourceFile.FileSet
use gad.SourceFile.FileSet.{
  SourceFileSet, new_file_set, add_file, max_int, base_or, contains, file_at, file,
}
use gad.SourceFile.Lookup.{
  Placed-get, Placed-append, IsFileSet, Answers, Answers-none, file_at-Looks,
}

outside :
    (s : SourceFileSet) (p : ℕ)
    → IsFileSet s
    → p ≡ no_pos
    → (n : ℕ) (f : SourceFile) → get_elem? s.files n ≡ some f
    → contains f p ≡ false
unfolding contains
outside s p ok eq n f e = ground (arith, eq, Placed-get 1 0 s.files s.base n f ok e)

-- In a set of disjoint files, `File` does not panic and keeps the files and the base, and it returns
-- a file with its place exactly when the file stands there and contains the position, whatever file
-- is cached; so at most one file contains a position, and none contains `NoPos`.
pub file-Answers :
    (s : SourceFileSet) (p : ℕ)
    → IsFileSet s
    → (r : Option (ℕ × SourceFile)) × (s' : SourceFileSet) × ((file s p ≡ some (r, s'))
        × (s'.files ≡ s.files)
        × (s'.base ≡ s.base)
        × Answers s.files p r)
unfolding file
file-Answers s p ok = elim (ℕ_discrete p no_pos) [
  | no ne ↦
      let (r, s', q) = file_at-Looks s p ok in (r, s', (ground (arith, ne, q.0), q.1, q.2, q.3))
  | yes eq ↦ (none, s, (ground (arith, eq), refl, refl, Answers-none s p ok (outside s p ok eq)))
]

-- In a set of disjoint files, `AddFile` with a base that is negative or no less than the set's, and
-- a size with which the file and the place behind it end within `int`, does not panic: the new file stands behind the others, at the place that is its index, has the
-- name and the size that were asked for, the base of the set or a later one, and one line; and the
-- files of the new set are disjoint again. With a base below the set's, or
-- a file that does not end within `int`, it panics.
pub add_file-IsFileSet :
    (s : SourceFileSet) (filename : String) (base : ℤ) (size : ℕ)
    → IsFileSet s
    → (s.base ≤ base_or base s.base
        → base_or base s.base + size + 1 ≤ max_int
        → (s' : SourceFileSet) × (f : SourceFile) × ((add_file s filename base (pos size)
              ≡ some (s', f))
            × IsFileSet s'
            × (s'.files ≡ s.files ++ f ∷ [])
            × (get_elem? s'.files f.index ≡ some f)
            × (f.name ≡ filename)
            × (f.size ≡ size)
            × (s.base ≤ f.base)
            × (f.lines ≡ 0 ∷ [])))
      × ((base_or base s.base < s.base) ⊎ (max_int < base_or base s.base + size + 1)
          → add_file s filename base (pos size) ≡ none)
unfolding add_file
add_file-IsFileSet s filename base size ok = (
  λ le fits.
      let f : SourceFile = record {
        name = filename;
        base = base_or base s.base;
        size = size;
        lines = 0 ∷ [];
        index = length s.files;
      } in
      (
        record {
          base = base_or base s.base + size + 1;
          files = s.files ++ f ∷ [];
          last_file = some (length s.files);
        },
        f,
        (
          ground (arith, le, fits),
          Placed-append 1 0 s.files s.base f ok le (omega arith),
          refl,
          get_elem?-length s.files [] f,
          refl,
          refl,
          le,
          refl,
        ),
      ),
  λ out. ground (arith, out),
)

-- In a set of disjoint files, `Position` of the set at a position that the file at a place contains
-- is `Position` of that file, and keeps the files; at a position that no file contains it is the
-- zero position.
pub position-file :
    (s : SourceFileSet) (p : ℕ)
    → IsFileSet s
    → ((n : ℕ) (f : SourceFile)
        → get_elem? s.files n ≡ some f
        → contains f p ≡ true
        → (s' : SourceFileSet) × ((FileSet.position s p
              ≡ Option.map (λ q. (q, s')) (File.position f p))
            × (s'.files ≡ s.files)))
      × (((n : ℕ) (f : SourceFile) → get_elem? s.files n ≡ some f → contains f p ≡ false)
          → (s' : SourceFileSet) × ((FileSet.position s p ≡ some (zero_pos, s'))
              × (s'.files ≡ s.files)))
unfolding FileSet.position File.position contains
position-file s p ok =
    let (r, s', (e, fs, b, a)) = file_at-Looks s p ok in
    (
      λ n f g c.
          let found = (a n f).1 (g, c) in
          let low = Placed-get 1 0 s.files s.base n f ok g in
          (s', (ground (arith, e, found, low.0, c, Option-cases (safe_position f p)), fs)),
      λ h. elim (ℕ_discrete p no_pos) [
        | yes eq ↦ (s, (ground (arith, eq), refl))
        | no ne ↦ elim (Option-cases r) [
          | inl n ↦ (s', (ground (arith, ne, e, n), fs))
          | inr (nf, q) ↦
              let found = (a nf.0 nf.1).0 q in absurd (ground (arith, found.1, h nf.0 nf.1 found.0))
        ]
      ],
    )
