-- ===== src/SourceFile/Lookup.antt =====
-- Which file of a set a position is in: the search, the cached last file, and `AddFile`.
use mathlib.Core.Option.{some-injective}
use native.Mathlib.Decide.{dec_lt}
use gad.Prelude.{
  ℕ, zero, suc, ◌+◌, ◌<◌, ◌≤◌, ◌≡◌, ◌↔◌, refl, sym, ap, ◌∙◌, inl, inr, Bool, true, false,
  Bool-cases, Option-cases, Option, none, some, List, [], ◌∷◌, ◌++◌, ltb, leb, length, get_elem?,
  get_elem?-some, get_elem?-lt, arith,
}
use gad.Prelude.Int.{pos, sub_ℕ}
use gad.Prelude.Result.{◌>>=◌}
use gad.SourceFile.Search.Laws.{sort_search_least}
use gad.SourceFile.File.{SourceFile}
use gad.SourceFile.FileSet.{SourceFileSet, search_files, contains, look_up, cached, file_at}

-- The files take up disjoint ranges from `low` on, each with a position for its end of file, below
-- `top`; and each has its place as its index.
abbrev pub Placed : ℕ → ℕ → List SourceFile → ℕ → Type 0
Placed low i [] top = low ≤ top
Placed low i (f ∷ fs) top =
    (low ≤ f.base) × (f.index ≡ i) × Placed (f.base + f.size + 1) (suc i) fs top

abbrev pub IsFileSet : SourceFileSet → Type 0
IsFileSet s = Placed 1 0 s.files s.base

pub Placed-get :
    (low i : ℕ) (fs : List SourceFile) (top n : ℕ) (f : SourceFile)
    → Placed low i fs top
    → get_elem? fs n ≡ some f
    → (low ≤ f.base) × (f.index ≡ i + n)
Placed-get low i [] top n f s e = absurd (ground (arith, e))
Placed-get low i (g ∷ fs) top zero f s e = ground (arith, s.0, s.1, e)
Placed-get low i (g ∷ fs) top (suc n) f s e =
    let q = Placed-get (g.base + g.size + 1) (suc i) fs top n f s.2 e in
    omega (arith, q.0, q.1, s.0)

-- A file ends before each later one starts.
Placed-lt :
    (low i : ℕ) (fs : List SourceFile) (top n m : ℕ) (f g : SourceFile)
    → Placed low i fs top
    → n < m
    → get_elem? fs n ≡ some f
    → get_elem? fs m ≡ some g
    → f.base + f.size < g.base
Placed-lt low i [] top n m f g s lt e e' = absurd (ground (arith, e))
Placed-lt low i (h ∷ fs) top n zero f g s lt e e' = absurd (omega arith)
Placed-lt low i (h ∷ fs) top zero (suc m) f g s lt e e' =
    let q = Placed-get (h.base + h.size + 1) (suc i) fs top m g s.2 e' in ground (arith, q.0, e)
Placed-lt low i (h ∷ fs) top (suc n) (suc m) f g s lt e e' =
    Placed-lt (h.base + h.size + 1) (suc i) fs top n m f g s.2 (omega arith) e e'

pub Placed-append :
    (low i : ℕ) (fs : List SourceFile) (top : ℕ) (f : SourceFile)
    → Placed low i fs top
    → top ≤ f.base
    → f.index ≡ i + length fs
    → Placed low i (fs ++ f ∷ []) (f.base + f.size + 1)
Placed-append low i [] top f s b ix = (omega arith, omega arith, omega arith)
Placed-append low i (g ∷ fs) top f s b ix =
    (s.0, s.1, Placed-append (g.base + g.size + 1) (suc i) fs top f s.2 b (omega arith))

-- The answer to a search: the place and the file that contains the position, if any.
abbrev pub Answers : List SourceFile → ℕ → Option (ℕ × SourceFile) → Type 0
Answers fs p r =
    (n : ℕ) (f : SourceFile)
    → (r ≡ some (n, f)) ↔ ((get_elem? fs n ≡ some f) × (contains f p ≡ true))

module _ (s : SourceFileSet) (p : ℕ) (ok : IsFileSet s) where
  contains_unique :
      (n m : ℕ) (f g : SourceFile)
      → get_elem? s.files n ≡ some f
      → contains f p ≡ true
      → get_elem? s.files m ≡ some g
      → contains g p ≡ true
      → n ≡ m
  unfolding contains
  contains_unique n m f g e c e' c' = elim (dec_lt n m) [
    | yes lt ↦ absurd (ground (arith, c, c', Placed-lt 1 0 s.files s.base n m f g ok lt e e'))
    | no ge ↦ elim (dec_lt m n) [
      | yes lt ↦ absurd (ground (arith, c, c', Placed-lt 1 0 s.files s.base m n g f ok lt e' e))
      | no le ↦ omega arith
    ]
  ]

  Answers-some :
      (n : ℕ) (f : SourceFile)
      → get_elem? s.files n ≡ some f
      → contains f p ≡ true
      → Answers s.files p (some (n, f))
  Answers-some n f e c m g = (
    λ q.
        let same = some-injective (n, f) (m, g) q in
        let place : n ≡ m = ap (λ t. t.0) same in
        let here : f ≡ g = ap (λ t. t.1) same in
        (
          ap (get_elem? s.files) (sym place) ∙ e ∙ ap some here,
          ap (λ t. contains t p) (sym here) ∙ c,
        ),
    λ q.
        let place : n ≡ m = contains_unique n m f g e c q.0 q.1 in
        let here : some f ≡ some g = sym e ∙ ap (get_elem? s.files) place ∙ q.0 in
        ap (λ t. some (t, f)) place ∙ ap (λ t. some (m, t)) (some-injective f g here),
  )

  pub Answers-none :
      ((n : ℕ) (f : SourceFile) → get_elem? s.files n ≡ some f → contains f p ≡ false)
      → Answers s.files p none
  Answers-none h n f =
      (λ q. absurd (ground (arith, q)), λ q. absurd (ground (arith, q.0, q.1, h n f q.0)))

  abbrev above : ℕ → Option Bool
  above i = do f ← get_elem? s.files i; some (ltb p f.base)

  above-total : (i : ℕ) → i < length s.files → (t : Bool) × (above i ≡ some t)
  above-total i b = let (f, e) = get_elem?-some s.files i b in (ltb p f.base, ground (arith, e))

  above_mono : (i k : ℕ) → i ≤ k → k < length s.files → above i ≡ some true → above k ≡ some true
  above_mono i k le b e =
      let (f, q) = get_elem?-some s.files i (omega arith) in
      let (g, r) = get_elem?-some s.files k b in
      elim (dec_lt i k) [
        | yes lt ↦ ground (arith, e, q, r, Placed-lt 1 0 s.files s.base i k f g ok lt q r)
        | no ge ↦ let same : i ≡ k = omega arith in ap above (sym same) ∙ e
      ]

  above-some :
      (i : ℕ) (f : SourceFile) (t : Bool)
      → get_elem? s.files i ≡ some f
      → above i ≡ some t
      → ltb p f.base ≡ t
  above-some i f t q e = ground (arith, q, e)

  abbrev Looks : Option (Option (ℕ × SourceFile) × SourceFileSet) → Type 0
  Looks result =
      (r : Option (ℕ × SourceFile)) × (s' : SourceFileSet) × ((result ≡ some (r, s'))
        × (s'.files ≡ s.files)
        × (s'.base ≡ s.base)
        × Answers s.files p r)

  found_none :
      (r : ℕ)
      → ((k : ℕ) → r ≤ k → k < length s.files → above k ≡ some true)
      → (n : ℕ) (f : SourceFile) → r ≤ n
      → get_elem? s.files n ≡ some f
      → contains f p ≡ false
  unfolding contains
  found_none r hi n f le e =
      ground (arith, above-some n f true e (hi n le (get_elem?-lt s.files n f e)))

  -- The search without the cache, when `sort.Search` gives an index.
  look_up-at :
      (r : ℕ)
      → search_files s.files p ≡ some (sub_ℕ r 1)
      → r ≤ length s.files
      → ((k : ℕ) → k < r → above k ≡ some false)
      → ((k : ℕ) → r ≤ k → k < length s.files → above k ≡ some true)
      → Looks (look_up s p)
  unfolding look_up
  look_up-at zero e b lo hi = (
    none,
    s,
    (ground (arith, e), refl, refl, Answers-none (λ n f q. found_none 0 hi n f (omega arith) q)),
  )
  look_up-at (suc k) e b lo hi =
      let (f, q) = get_elem?-some s.files k b in
      let below = above-some k f false q (lo k (omega arith)) in
      let n_at : search_files s.files p ≡ some (pos k) = e ∙ ap some (ground arith) in
      elim (Bool-cases (leb p (f.base + f.size))) [
        | inl y ↦ (
          some (k, f),
          record s { last_file = some k },
          (
            ground (arith, n_at, q, y),
            refl,
            refl,
            Answers-some k f q (unfold contains in ground (arith, below, y)),
          ),
        )
        | inr n ↦ (none, s, (ground (arith, n_at, q, n), refl, refl, Answers-none (beyond f q n)))
      ]
    where
      beyond :
          (f : SourceFile)
          → get_elem? s.files k ≡ some f
          → leb p (f.base + f.size) ≡ false
          → (m : ℕ) (g : SourceFile) → get_elem? s.files m ≡ some g
          → contains g p ≡ false
      beyond f q n m g h = elim (dec_lt k m) [
        | yes lt ↦ found_none (suc k) hi m g (omega arith) h
        | no ge ↦ elim (dec_lt m k) [
          | yes lt ↦
              unfold contains in
              ground (
                arith,
                n,
                Placed-lt 1 0 s.files s.base m k g f ok lt h q,
                above-some k f false q (lo k (omega arith)),
              )
          | no le ↦
              let same : m ≡ k = omega arith in
              let here : f ≡ g =
                some-injective f g (sym q ∙ ap (get_elem? s.files) (sym same) ∙ h) in
              unfold contains in ground (arith, here, n)
        ]
      ]

  look_up-Looks : Looks (look_up s p)
  unfolding search_files
  look_up-Looks =
      let (r, e, b, lo, hi) = sort_search_least (length s.files) above above-total above_mono in
      look_up-at r (ground (arith, e)) b lo hi

  cached-some :
      (n : ℕ) (f : SourceFile)
      → cached s p ≡ some (n, f)
      → (get_elem? s.files n ≡ some f) × (contains f p ≡ true)
  unfolding cached
  cached-some n f e = elim (Option-cases s.last_file) [
    | inl miss ↦ absurd (ground (arith, e, miss))
    | inr (m, q) ↦ elim (Option-cases (get_elem? s.files m)) [
      | inl miss ↦ absurd (ground (arith, e, q, miss))
      | inr (g, h) ↦ elim (Bool-cases (contains g p)) [
        | inr miss ↦ absurd (ground (arith, e, q, h, miss))
        | inl y ↦
            let same : (m, g) ≡ (n, f) =
              some-injective (m, g) (n, f) (sym (ground (arith, q, h, y)) ∙ e) in
            (
              ap (get_elem? s.files) (sym (ap (λ t. t.0) same)) ∙ h ∙ ap (λ t. some t.1) same,
              ap (λ t. contains t.1 p) (sym same) ∙ y,
            )
      ]
    ]
  ]

  pub file_at-Looks : Looks (file_at s p)
  unfolding file_at
  file_at-Looks = elim (Option-cases (cached s p)) [
    | inl n ↦ let (r, s', q) = look_up-Looks in (r, s', (ground (arith, n, q.0), q.1, q.2, q.3))
    | inr (nf, e) ↦
        let h = cached-some nf.0 nf.1 e in
        (some nf, s, (ground (arith, e), refl, refl, Answers-some nf.0 nf.1 h.0 h.1))
  ]
