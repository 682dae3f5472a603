-- ===== src/SourceFile/Search.antt =====
-- parser/source_file.go: `searchInts`, and the standard library's `sort.Search`, of which its
-- comment says that it is an inlined version. `none` is a panic or the end of the fuel.
pub mod Laws
use mathlib.Core.Option
use gad.Prelude.{
  ℕ, zero, suc, ◌+◌, ◌-◌, ◌/◌, Bool, true, false, Option, none, some, List, ltb, length, get_elem?,
}
use gad.Prelude.Int.{ℤ, sub_ℕ, leb_int}
use gad.Prelude.Result.{◌>>=◌}

-- for i < j { h := i + (j-i)/2; if a[h] <= x { i = h + 1 } else { j = h } }
unfoldable pub search_loop : ℕ → List ℕ → ℤ → ℕ → ℕ → Option ℕ
search_loop zero a x i j = none
search_loop (suc fuel) a x i j = elim (ltb i j) [
  | false ↦ some i
  | true ↦ do
    let h = i + (j - i) / 2
    v ← get_elem? a h
    elim (leb_int v x) [ true ↦ search_loop fuel a x (h + 1) j | false ↦ search_loop fuel a x i h ]
]

-- One round halves the range, so as much fuel as there are items is enough. The result is -1
-- where every item is above `x`.
unfoldable pub search_ints : List ℕ → ℤ → Option ℤ
search_ints a x = Option.map (λ i. sub_ℕ i 1) (search_loop (length a + 1) a x 0 (length a))

-- for i < j { h := int(uint(i+j) >> 1); if !f(h) { i = h + 1 } else { j = h } }
unfoldable pub sort_search_loop : ℕ → (ℕ → Option Bool) → ℕ → ℕ → Option ℕ
sort_search_loop zero f i j = none
sort_search_loop (suc fuel) f i j = elim (ltb i j) [
  | false ↦ some i
  | true ↦ do
    let h = (i + j) / 2
    t ← f h
    elim t [ false ↦ sort_search_loop fuel f (h + 1) j | true ↦ sort_search_loop fuel f i h ]
]

unfoldable pub sort_search : ℕ → (ℕ → Option Bool) → Option ℕ
sort_search n f = sort_search_loop (n + 1) f 0 n
