-- ===== src/SourceFile/Search/Laws.antt =====
-- `sort.Search` finds the least index with the property, and `searchInts` is that search.
use mathlib.Core.Option
use native.Mathlib.Decide.{dec_lt}
use gad.Prelude.{
  ℕ, zero, suc, ◌+◌, ◌-◌, ◌/◌, ◌<◌, ◌≤◌, ◌≡◌, refl, ap, ◌∙◌, inl, inr, Bool, true, false, not,
  Bool-cases, Option, some, List, ltb, ltb→lt, lt→ltb, length, get_elem?, arith,
}
use gad.Prelude.Int.{ℤ, sub_ℕ, leb_int}
use gad.Prelude.Result.{◌>>=◌}
use gad.SourceFile.Search.{search_loop, search_ints, sort_search_loop, sort_search}

abbrev above : List ℕ → ℤ → ℕ → Option Bool
above a x i = do v ← get_elem? a i; some (not (leb_int v x))

search_loop-eq :
    (fuel : ℕ) (a : List ℕ) (x : ℤ) (i j : ℕ)
    → search_loop fuel a x i j ≡ sort_search_loop fuel (above a x) i j
unfolding search_loop sort_search_loop
search_loop-eq zero a x i j = refl
search_loop-eq (suc fuel) a x i j = elim (Bool-cases (ltb i j)) [
  | inl y ↦
      let mid : i + (j - i) / 2 ≡ (i + j) / 2 = omega (arith, ltb→lt i j y) in
      (ground (
        arith,
        y,
        mid,
        search_loop-eq fuel a x ((i + j) / 2 + 1) j,
        search_loop-eq fuel a x i ((i + j) / 2),
      ))
  | inr n ↦ ground (arith, n)
]

module _ (n : ℕ) (f : ℕ → Option Bool) (total : (i : ℕ) → i < n → (t : Bool) × (f i ≡ some t))
    (mono : (i k : ℕ) → i ≤ k → k < n → f i ≡ some true → f k ≡ some true) where
  abbrev Splits : ℕ → ℕ → Type 0
  Splits i j = ((k : ℕ) → k < i → f k ≡ some false) × ((k : ℕ) → j ≤ k → k < n → f k ≡ some true)

  -- Below an index without the property nothing has it.
  false_below : (h k : ℕ) → h < n → k ≤ h → f h ≡ some false → f k ≡ some false
  false_below h k b le e =
      let (t, q) = total k (omega arith) in
      elim (Bool-cases t) [
        | inl y ↦ absurd (ground (arith, e, mono k h le b (q ∙ ap some y)))
        | inr y ↦ q ∙ ap some y
      ]

  abbrev Found : ℕ → ℕ → ℕ → Type 0
  Found fuel i j = (r : ℕ) × (sort_search_loop fuel f i j ≡ some r) × (r ≤ n) × Splits r r

  -- One round, when the middle lies above and when it lies below.
  round_up :
      (fuel i j : ℕ)
      → i < j
      → f ((i + j) / 2) ≡ some false
      → Found fuel ((i + j) / 2 + 1) j
      → Found (suc fuel) i j
  unfolding sort_search_loop
  round_up fuel i j lt e (r, q, b, s) = (r, ground (arith, lt→ltb i j lt, e, q), b, s)

  round_down :
      (fuel i j : ℕ)
      → i < j
      → f ((i + j) / 2) ≡ some true
      → Found fuel i ((i + j) / 2)
      → Found (suc fuel) i j
  unfolding sort_search_loop
  round_down fuel i j lt e (r, q, b, s) = (r, ground (arith, lt→ltb i j lt, e, q), b, s)

  sort_search_loop_lem : (fuel i j : ℕ) → i ≤ j → j ≤ n → j < fuel + i → Splits i j → Found fuel i j
  sort_search_loop_lem zero i j le b m s = absurd (omega arith)
  sort_search_loop_lem (suc fuel) i j le b m s = elim (dec_lt i j) [
    | no out ↦
        let same : i ≡ j = omega arith in
        (
          i,
          unfold sort_search_loop in ground arith,
          omega arith,
          (s.0, λ k p q. s.1 k (omega arith) q),
        )
    | yes lt ↦
        let (t, q) = total ((i + j) / 2) (omega arith) in
        elim (Bool-cases t) [
          | inl y ↦ round_down fuel i j lt (q ∙ ap some y) (
              sort_search_loop_lem fuel i ((i + j) / 2) (omega arith) (omega arith) (omega arith)
                (s.0, λ k p r. mono ((i + j) / 2) k p r (q ∙ ap some y)))
          | inr y ↦ round_up fuel i j lt (q ∙ ap some y) (
              sort_search_loop_lem fuel ((i + j) / 2 + 1) j (omega arith) b (omega arith) (
                λ k p. false_below ((i + j) / 2) k (omega arith) (omega arith) (q ∙ ap some y),
                s.1,
              ))
        ]
  ]

  -- For a total property of the indexes below `n` that stays true once it is, `sort.Search`
  -- returns within its fuel an index up to `n` such that the property fails at all the indexes
  -- below it and holds at all the others.
  pub sort_search_least :
      (r : ℕ) × (sort_search n f ≡ some r)
      × (r ≤ n)
      × ((k : ℕ) → k < r → f k ≡ some false)
      × ((k : ℕ) → r ≤ k → k < n → f k ≡ some true)
  unfolding sort_search
  sort_search_least =
      let (r, e, b, s) =
        sort_search_loop_lem (n + 1) 0 n (omega arith) (omega arith) (omega arith)
          (λ k p. absurd (omega arith), λ k p q. absurd (omega arith)) in
      (r, e, b, s.0, s.1)

-- `searchInts` is `sort.Search` for the first item above `x`, less one, on every list and integer.
pub search_ints-eq :
    (a : List ℕ) (x : ℤ)
    → search_ints a x
      ≡ Option.map
          (λ i. sub_ℕ i 1)
          (sort_search (length a) (λ i. do v ← get_elem? a i; some (not (leb_int v x))))
unfolding search_ints sort_search
search_ints-eq a x =
    ap (Option.map (λ i. sub_ℕ i 1)) (search_loop-eq (length a + 1) a x 0 (length a))
