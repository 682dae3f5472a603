-- ===== src/Args/Walk.antt =====
-- `WalkSkip`: the first answer of the call back.
use native.Mathlib.Decide.{dec_lt}
use gad.Prelude.{
  ℕ, zero, suc, ◌+◌, ◌<◌, ◌≤◌, ◌≡◌, refl, ap, ◌∙◌, Option-cases, Option, none, some, List, [], ◌∷◌,
  ◌++◌, length, get_elem?, arith,
}
use gad.Args.{Args, walk_row, walk_rows, walk_skip}
use gad.Args.Flat.{flatten}

module _ {ℓ} {A : Type ℓ} {R : Type 0} (cb : ℕ → A → Option R) (skip : ℕ) where
  walk_row-end :
      (v : List A) (i : ℕ)
      → (walk_row cb skip v i).0 ≡ none
      → (walk_row cb skip v i).1 ≡ i + length v
  unfolding walk_row
  walk_row-end [] i e = omega arith
  walk_row-end (a ∷ v) i e = ground (arith, e, walk_row-end v (i + 1), Option-cases (cb i a))

  walk_row-append :
      (v w : List A) (i : ℕ)
      → (walk_row cb skip (v ++ w) i).0 ≡ (elim (walk_row cb skip v i).0 [
        | some r ↦ some r
        | none ↦ (walk_row cb skip w (walk_row cb skip v i).1).0
      ])
  unfolding walk_row
  walk_row-append [] w i = refl
  walk_row-append (a ∷ v) w i = ground (arith, walk_row-append v w (i + 1), Option-cases (cb i a))

  walk_rows-row :
      (o : List (List A)) (i : ℕ) → walk_rows cb skip o i ≡ (walk_row cb skip (flatten o) i).0
  unfolding walk_rows
  walk_rows-row [] i = unfold walk_row in refl
  walk_rows-row (v ∷ o) i =
      ground (arith, walk_row-append v (flatten o) i, walk_rows-row o (walk_row cb skip v i).1)

  abbrev Silent : List A → ℕ → ℕ → Type ℓ
  Silent l i n =
      (m : ℕ) (a : A) → skip ≤ i + m → m < n → get_elem? l m ≡ some a → cb (i + m) a ≡ none

  Silent-tail : (a : A) (l : List A) (i n : ℕ) → Silent (a ∷ l) i (suc n) → Silent l (i + 1) n
  Silent-tail a l i n h m b s lt e =
      ap (λ k. cb k b) {x = i + 1 + m} {y = i + suc m} (omega arith)
      ∙ h (suc m) b (omega arith) (omega arith) e

  Silent-head : (a : A) (l : List A) (i n : ℕ) → Silent (a ∷ l) i (suc n) → skip ≤ i → cb i a ≡ none
  Silent-head a l i n h s =
      ap (λ k. cb k a) {x = i} {y = i + 0} (omega arith) ∙ h 0 a (omega arith) (omega arith) refl

  walk_row-none : (l : List A) (i : ℕ) → Silent l i (length l) → (walk_row cb skip l i).0 ≡ none
  unfolding walk_row
  walk_row-none [] i h = refl
  walk_row-none (a ∷ l) i h =
      let rest = walk_row-none l (i + 1) (Silent-tail a l i (length l) h) in
      elim (dec_lt i skip) [
        | yes lt ↦ ground (arith, lt, rest)
        | no ge ↦ ground (arith, ge, rest, Silent-head a l i (length l) h (omega arith))
      ]

  walk_row-some :
      (l : List A) (i n : ℕ) (a : A) (r : R)
      → get_elem? l n ≡ some a
      → skip ≤ i + n
      → cb (i + n) a ≡ some r
      → Silent l i n
      → (walk_row cb skip l i).0 ≡ some r
  unfolding walk_row
  walk_row-some [] i n a r g s e h = absurd (ground (arith, g))
  walk_row-some (b ∷ l) i zero a r g s e h =
      let here : cb i b ≡ some r =
        ap (λ k. cb k b) {x = i} {y = i + 0} (omega arith)
        ∙ ap (cb (i + 0)) (ground (arith, g))
        ∙ e in
      ground (arith, s, here)
  walk_row-some (b ∷ l) i (suc n) a r g s e h =
      let there : cb (i + 1 + n) a ≡ some r =
        ap (λ k. cb k a) {x = i + 1 + n} {y = i + suc n} (omega arith) ∙ e in
      let rest = walk_row-some l (i + 1) n a r g (omega arith) there (Silent-tail b l i n h) in
      elim (dec_lt i skip) [
        | yes lt ↦ ground (arith, lt, rest)
        | no ge ↦ ground (arith, ge, rest, Silent-head b l i n h (omega arith))
      ]

  -- `WalkSkip` returns the answer of the first argument, at `skip` or later in the order of all the
  -- rows, for which the call back with its index answers; and nothing where it answers for none.
  pub walk_skip-first :
      (o : Args A)
      → ((n : ℕ) (a : A) (r : R)
          → skip ≤ n
          → get_elem? (flatten o.rows) n ≡ some a
          → cb n a ≡ some r
          → ((m : ℕ) (b : A)
              → skip ≤ m
              → m < n
              → get_elem? (flatten o.rows) m ≡ some b
              → cb m b ≡ none)
          → walk_skip skip cb o ≡ some r)
        × (((m : ℕ) (b : A) → skip ≤ m → get_elem? (flatten o.rows) m ≡ some b → cb m b ≡ none)
            → walk_skip skip cb o ≡ none)
  unfolding walk_skip
  walk_skip-first o = (
    λ n a r s g e h.
        walk_rows-row o.rows 0
        ∙ walk_row-some (flatten o.rows) 0 n a r g (omega arith)
            (ap (λ k. cb k a) {x = 0 + n} {y = n} (omega arith) ∙ e)
            (λ m b s' lt g'.
              ap (λ k. cb k b) {x = 0 + m} {y = m} (omega arith) ∙ h m b (omega arith) lt g'),
    λ h.
        walk_rows-row o.rows 0
        ∙ walk_row-none (flatten o.rows) 0 (λ m b s' lt g'.
          ap (λ k. cb k b) {x = 0 + m} {y = m} (omega arith) ∙ h m b (omega arith) g'),
  )
