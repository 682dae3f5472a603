-- ===== src/SourceFile/Lines.antt =====
-- The order of a line table, which `searchInts` needs, and `AddLine`.
use native.Mathlib.Decide.{dec_lt}
use mathlib.Core.Path.{subst}
use gad.Prelude.{
  ℕ, zero, suc, ◌<◌, ◌≤◌, ◌≡◌, ◌↔◌, refl, sym, ap, ◌∙◌, inl, inr, Bool-cases, some, List, [], ◌∷◌,
  ◌++◌, ltb, ◌==◌, if◌then◌else◌, ltb→lt, append_assoc, length, length-append, take-length,
  drop-length, get_elem?, get_elem?-length, get_elem?-some, arith,
}
use gad.SourceFile.File.{SourceFile, add_line, add_line_loop}

-- Strictly rising from above `x`.
abbrev pub After : ℕ → List ℕ → Type 0
After x [] = Unit
After x (y ∷ ys) = (x < y) × After y ys

abbrev pub IsSorted : List ℕ → Type 0
IsSorted [] = Unit
IsSorted (x ∷ xs) = After x xs

After-get : (x : ℕ) (ys : List ℕ) (i v : ℕ) → After x ys → get_elem? ys i ≡ some v → x < v
After-get x [] i v s e = ground (arith, e)
After-get x (y ∷ ys) zero v s e = ground (arith, s.0, e)
After-get x (y ∷ ys) (suc i) v s e = omega (arith, s.0, After-get y ys i v s.1 e)

IsSorted-After : (x : ℕ) (ys : List ℕ) → After x ys → IsSorted ys
IsSorted-After x [] s = tt
IsSorted-After x (y ∷ ys) s = s.1

pub IsSorted-get :
    (a : List ℕ) (i j v w : ℕ)
    → IsSorted a
    → i < j
    → get_elem? a i ≡ some v
    → get_elem? a j ≡ some w
    → v < w
IsSorted-get [] i j v w s lt e e' = absurd (ground (arith, e))
IsSorted-get (x ∷ a) zero zero v w s lt e e' = absurd (omega arith)
IsSorted-get (x ∷ a) zero (suc j) v w s lt e e' =
    let same : x ≡ v = ground (arith, e) in subst (λ t. t < w) same (After-get x a j w s e')
IsSorted-get (x ∷ a) (suc i) zero v w s lt e e' = absurd (omega arith)
IsSorted-get (x ∷ a) (suc i) (suc j) v w s lt e e' =
    IsSorted-get a i j v w (IsSorted-After x a s) (omega arith) e e'

After-split :
    (x : ℕ) (xs : List ℕ) (y : ℕ) (ys : List ℕ)
    → After x (xs ++ y ∷ ys) ↔ (After x (xs ++ y ∷ []) × After y ys)
After-split x [] y ys = (λ s. ((s.0, tt), s.1), λ s. (s.0.0, s.1))
After-split x (z ∷ xs) y ys =
    let r = After-split z xs y ys in
    (λ s. let q = r.0 s.1 in ((s.0, q.0), q.1), λ s. (s.0.0, r.1 (s.0.1, s.1)))

-- A list is sorted when it is up to one of its items and from there on.
IsSorted-split :
    (xs : List ℕ) (y : ℕ) (ys : List ℕ)
    → IsSorted (xs ++ y ∷ ys) ↔ (IsSorted (xs ++ y ∷ []) × After y ys)
IsSorted-split [] y ys = (λ s. (tt, s), λ s. s.1)
IsSorted-split (x ∷ xs) y ys = After-split x xs y ys

-- Below the offset the loop goes on to the front and appends.
add_line_loop-append :
    (i : ℕ) (lines : List ℕ) (offset : ℕ)
    → i ≤ length lines
    → ((k v : ℕ) → k < i → get_elem? lines k ≡ some v → v < offset)
    → add_line_loop i lines offset ≡ some (lines ++ offset ∷ [])
unfolding add_line_loop
add_line_loop-append zero lines offset b h = refl
add_line_loop-append (suc i) lines offset b h =
    let (v, e) = get_elem?-some lines i b in
    ground (
      arith,
      e,
      h i v (omega arith) e,
      add_line_loop-append i lines offset (omega arith) (λ k w p. h k w (omega arith)),
    )

module _ (pre : List ℕ) (last offset : ℕ) where
  abbrev whole : List ℕ
  whole = pre ++ last ∷ []

  last_at : get_elem? whole (length pre) ≡ some last
  last_at = get_elem?-length pre [] last

  loop-last : offset ≡ last → add_line_loop (suc (length pre)) whole offset ≡ some whole
  unfolding add_line_loop
  loop-last e = ground (arith, e, last_at)

  loop-before :
      offset < last
      → add_line_loop (suc (length pre)) whole offset ≡ some (pre ++ offset ∷ last ∷ [])
  unfolding add_line_loop
  loop-before lt =
      ground (arith, lt, last_at, take-length pre (last ∷ []), drop-length pre (last ∷ []))

  loop-after :
      IsSorted whole
      → last < offset
      → add_line_loop (suc (length pre)) whole offset ≡ some (whole ++ offset ∷ [])
  loop-after s lt =
      add_line_loop-append (suc (length pre)) whole offset
        (omega (arith, length-append pre (last ∷ []))) below
    where
      below : (k v : ℕ) → k < suc (length pre) → get_elem? whole k ≡ some v → v < offset
      below k v b e = elim (dec_lt k (length pre)) [
        | yes h ↦ omega (arith, lt, IsSorted-get whole k (length pre) v last s h e last_at)
        | no h ↦
            let same : k ≡ length pre = omega arith in
            let found : some v ≡ some last = sym e ∙ ap (get_elem? whole) same ∙ last_at in
            ground (arith, found, lt)
      ]

-- The lines after `AddLine`, for a table that ends in `last`.
abbrev added : List ℕ → ℕ → ℕ → List ℕ
added pre last offset =
    if ltb last offset
    then pre ++ last ∷ offset ∷ []
    else if offset == last
    then pre ++ last ∷ []
    else pre ++ offset ∷ last ∷ []

loop-added :
    (pre : List ℕ) (last offset : ℕ)
    → IsSorted (pre ++ last ∷ [])
    → add_line_loop (length (pre ++ last ∷ [])) (pre ++ last ∷ []) offset
      ≡ some (added pre last offset)
loop-added pre last offset s =
    let n : length (pre ++ last ∷ []) ≡ suc (length pre) =
      omega (arith, length-append pre (last ∷ [])) in
    rw n (
      ground (
        arith,
        loop-last pre last offset,
        loop-before pre last offset,
        loop-after pre last offset s,
        append_assoc pre (last ∷ []) (offset ∷ []),
      ))

add_line-added :
    (f : SourceFile) (pre : List ℕ) (last offset : ℕ)
    → f.lines ≡ pre ++ last ∷ []
    → IsSorted f.lines
    → offset < f.size
    → add_line f offset ≡ some (record f { lines = added pre last offset })
unfolding add_line
add_line-added f pre last offset is sorted fits =
    let l : add_line_loop (length f.lines) f.lines offset ≡ some (added pre last offset) =
      subst (λ t. add_line_loop (length t) t offset ≡ some (added pre last offset)) (sym is)
        (loop-added pre last offset (subst IsSorted is sorted)) in
    ground (arith, fits, l)

-- The end of the table that `AddLine` leaves.
abbrev new_end : ℕ → ℕ → List ℕ
new_end last offset =
    if ltb last offset
    then last ∷ offset ∷ []
    else if offset == last
    then last ∷ []
    else offset ∷ last ∷ []

added-eq : (pre : List ℕ) (last offset : ℕ) → added pre last offset ≡ pre ++ new_end last offset
added-eq pre last offset = ground arith

new_end-After : (a last offset : ℕ) → a < last → After a (new_end last offset) ↔ (a < offset)
new_end-After a last offset h = elim (Bool-cases (ltb last offset)) [
  | inl y ↦ rw y (λ s. omega (arith, h, ltb→lt last offset y), λ l. (h, (ltb→lt last offset y, tt)))
  | inr n ↦ elim (Bool-cases (offset == last)) [
    | inl e ↦ rw (n, e) (λ s. ground (arith, e, h), λ l. (h, tt))
    | inr d ↦ rw (n, d) (λ s. s.0, λ l. (l, (ground (arith, n, d), tt)))
  ]
]

-- The table stays sorted exactly when the offset is above the last item but one.
added-IsSorted :
    (pre : List ℕ) (a last offset : ℕ)
    → IsSorted (pre ++ a ∷ last ∷ [])
    → IsSorted (added (pre ++ a ∷ []) last offset) ↔ (a < offset)
added-IsSorted pre a last offset s =
    let q = (IsSorted-split pre a (last ∷ [])).0 s in
    let r = IsSorted-split pre a (new_end last offset) in
    let k = new_end-After a last offset q.1.0 in
    rw (added-eq (pre ++ a ∷ []) last offset, append_assoc pre (a ∷ []) (new_end last offset))
      (λ t. k.0 (r.0 t).1, λ l. r.1 (q.0, k.1 l))

-- On a sorted table that ends in `a` and then `last`, and an offset in the file, `AddLine` does not
-- panic and changes the table only; and the table that it leaves is sorted exactly when the offset
-- lies above `a`.
pub add_line-IsSorted_iff :
    (f : SourceFile) (pre : List ℕ) (a last offset : ℕ)
    → f.lines ≡ pre ++ a ∷ last ∷ []
    → IsSorted f.lines
    → offset < f.size
    → (lines : List ℕ) × (add_line f offset ≡ some (record f { lines = lines }))
      × (IsSorted lines ↔ (a < offset))
add_line-IsSorted_iff f pre a last offset is sorted fits =
    let is' : f.lines ≡ (pre ++ a ∷ []) ++ last ∷ [] =
      is ∙ sym (append_assoc pre (a ∷ []) (last ∷ [])) in
    (
      added (pre ++ a ∷ []) last offset,
      add_line-added f (pre ++ a ∷ []) last offset is' sorted fits,
      added-IsSorted pre a last offset (subst IsSorted is sorted),
    )
