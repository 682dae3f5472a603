-- ===== src/Numbers/Order.antt =====
-- The comparisons of two numbers agree with each other and with `Equal`, in both orders of operands.
use gad.Prelude.{
  ℕ, ◌^◌, ◌<◌, Bool, true, false, not, ltb, leb, ◌==◌, ◌≡◌, refl, ap, ◌∙◌, ◌⊎◌, arith, Bool-cases,
  inl, inr,
}
use gad.Token.{Token}
use gad.Numbers.{Object, Outcome, Others, int, uint, char, bool, nil_value, done}
use gad.Numbers.Word.{order_word, less_word, less_eq_word, extend}
use gad.Numbers.Operators.{
  comparison, arithmetic, with_rune, beside_nil, nil_left, binary_op, int_op, uint_op, char_op,
  bool_op, nil_op, bit,
}
use gad.Numbers.Equality.{
  equal, int_equal, uint_equal, char_equal, bool_equal, nil_equal, equal_bool,
}
use gad.Numbers.Range.{InRange, extend-lt}

abbrev pub ExactlyOne : Bool → Bool → Bool → Type 0
ExactlyOne l e g =
    ((l ≡ true) × (e ≡ false) × (g ≡ false))
    ⊎ ((l ≡ false) × (e ≡ true) × (g ≡ false))
    ⊎ ((l ≡ false) × (e ≡ false) × (g ≡ true))

-- Flipping the sign bit keeps different words different.
Flips : ℕ → Bool → Type 0
Flips w s = (a b : ℕ) → a < 2 ^ w → b < 2 ^ w → order_word w s a ≡ order_word w s b → a ≡ b

wide-Flips : (s : Bool) → Flips 64 s
unfolding Flips order_word
wide-Flips true a b h g e = omega (arith, e)
wide-Flips false a b h g e = e

rune-Flips : Flips 32 true
unfolding Flips order_word
rune-Flips a b h g e = omega (arith, e)

keyed :
    (x y a b : ℕ)
    → (x ≡ y → a ≡ b)
    → (a ≡ b → x ≡ y)
    → ExactlyOne (ltb x y) (a == b) (ltb y x)
      × (leb x y ≡ not (ltb y x))
      × (leb y x ≡ not (ltb x y))
      × ((b == a) ≡ (a == b))
keyed x y a b f g = (
  elim (Bool-cases (ltb x y)) [
    | inl e ↦ inl (e, ground arith, ground arith)
    | inr e ↦ elim (Bool-cases (ltb y x)) [
      | inl d ↦ inr (inr (e, ground arith, d))
      | inr d ↦ inr (inl (e, ground arith, d))
    ]
  ],
  ground arith,
  ground arith,
  ground arith,
)

one_order :
    (w : ℕ) (s : Bool) (a b : ℕ)
    → Flips w s
    → a < 2 ^ w
    → b < 2 ^ w
    → ExactlyOne (less_word w s a b) (a == b) (less_word w s b a)
      × (less_eq_word w s a b ≡ not (less_word w s b a))
      × (less_eq_word w s b a ≡ not (less_word w s a b))
      × ((b == a) ≡ (a == b))
unfolding less_word less_eq_word Flips
one_order w s a b f h g =
    keyed (order_word w s a) (order_word w s b) a b (f a b h g) (ap (order_word w s))

module _ {F D T : Type 0} (others : Others F D T) where
  -- The five comparisons of two objects, given whether the left one is below, is the same or above.
  unfoldable pub Agrees : Bool → Bool → Bool → Object F D T → Object F D T → Type 0
  Agrees l e g a b =
      (binary_op others Token.less a b ≡ done (bool l))
      × (binary_op others Token.less_eq a b ≡ done (bool (not g)))
      × (binary_op others Token.greater a b ≡ done (bool g))
      × (binary_op others Token.greater_eq a b ≡ done (bool (not l)))
      × (equal others a b ≡ e)

  -- All objects in range but a boolean beside a rune.
  unfoldable pub Comparable : Object F D T → Object F D T → Type 0
  Comparable (bool o) (char v) = ⊥
  Comparable (char o) (bool v) = ⊥
  Comparable _ _ = Unit

  abbrev Ordered : Object F D T → Object F D T → Type 0
  Ordered a b = (l e g : Bool) × ExactlyOne l e g × Agrees l e g a b × Agrees g e l b a

  -- The comparisons are those of two words.
  abbrev ByWords : ℕ → Bool → ℕ → ℕ → Object F D T → Object F D T → Type 0
  ByWords w s x y a b =
      (binary_op others Token.less a b ≡ done (bool (less_word w s x y)))
      × (binary_op others Token.less_eq a b ≡ done (bool (less_eq_word w s x y)))
      × (binary_op others Token.greater a b ≡ done (bool (less_word w s y x)))
      × (binary_op others Token.greater_eq a b ≡ done (bool (less_eq_word w s y x)))
      × (equal others a b ≡ (x == y))

  by_words :
      (w : ℕ) (s : Bool) (x y : ℕ) (a b : Object F D T)
      → Flips w s
      → x < 2 ^ w
      → y < 2 ^ w
      → ByWords w s x y a b
      → ByWords w s y x b a
      → Ordered a b
  unfolding Agrees
  by_words w s x y a b f h g (p₁, p₂, p₃, p₄, p₅) (q₁, q₂, q₃, q₄, q₅) =
      let (one, le, ge, swap) = one_order w s x y f h g in
      let text : Bool → Outcome F D T = λ v. done (bool v) in
      (
        less_word w s x y,
        x == y,
        less_word w s y x,
        one,
        (p₁, p₂ ∙ ap text le, p₃, p₄ ∙ ap text ge, p₅),
        (q₁, q₂ ∙ ap text ge, q₃, q₄ ∙ ap text le, q₅ ∙ swap),
      )

  ints :
      (x y : ℕ) (a b : Object F D T)
      → x < 2 ^ 64
      → y < 2 ^ 64
      → ByWords 64 true x y a b
      → ByWords 64 true y x b a
      → Ordered a b
  ints x y a b = by_words 64 true x y a b (wide-Flips true)

  uints :
      (x y : ℕ) (a b : Object F D T)
      → x < 2 ^ 64
      → y < 2 ^ 64
      → ByWords 64 false x y a b
      → ByWords 64 false y x b a
      → Ordered a b
  uints x y a b = by_words 64 false x y a b (wide-Flips false)

  bit-lt : (v : Bool) → bit v < 2 ^ 64
  bit-lt true = omega arith
  bit-lt false = omega arith

  -- Nil is below the other objects.
  nil_below :
      (a : Object F D T)
      → Agrees true false false nil_value a
      → Agrees false false true a nil_value
      → Ordered nil_value a
  nil_below a p q = (true, false, false, inl (refl, refl, refl), p, q)

  nil_above :
      (a : Object F D T)
      → Agrees true false false nil_value a
      → Agrees false false true a nil_value
      → Ordered a nil_value
  nil_above a p q = (false, false, true, inr (inr (refl, refl, refl)), q, p)

  ExactlyOne-flip : (l e g : Bool) → ExactlyOne l e g → ExactlyOne g e l
  ExactlyOne-flip l e g h = ground arith

  Ordered-flip : (a b : Object F D T) → Ordered a b → Ordered b a
  Ordered-flip a b (l, e, g, one, p, q) = (g, e, l, ExactlyOne-flip l e g one, q, p)

  int_order : (o : ℕ) (b : Object F D T) → o < 2 ^ 64 → InRange b → Ordered (int o) b
  unfolding InRange binary_op int_op uint_op char_op bool_op nil_op arithmetic comparison with_rune
      beside_nil nil_left equal int_equal uint_equal char_equal bool_equal nil_equal equal_bool
      Agrees
  int_order o (int v) h g =
      ints o v (int o) (int v) h g (refl, refl, refl, refl, refl) (refl, refl, refl, refl, refl)
  int_order o (uint v) h g =
      uints o v (int o) (uint v) h g (refl, refl, refl, refl, refl) (refl, refl, refl, refl, refl)
  int_order o (char v) h g =
      ints o (extend v) (int o) (char v) h (extend-lt v g) (refl, refl, refl, refl, refl)
        (refl, refl, refl, refl, refl)
  int_order o (bool true) h g =
      ints o 1 (int o) (bool true) h (omega arith) (refl, refl, refl, refl, refl)
        (refl, refl, refl, refl, ground arith)
  int_order o (bool false) h g =
      ints o 0 (int o) (bool false) h (omega arith) (refl, refl, refl, refl, refl)
        (refl, refl, refl, refl, ground arith)
  int_order o nil_value h g =
      nil_above (int o) (refl, refl, refl, refl, refl) (refl, refl, refl, refl, refl)
  int_order o _ h g = absurd g

  uint_order : (o : ℕ) (b : Object F D T) → o < 2 ^ 64 → InRange b → Ordered (uint o) b
  unfolding InRange binary_op int_op uint_op char_op bool_op nil_op arithmetic comparison with_rune
      beside_nil nil_left equal int_equal uint_equal char_equal bool_equal nil_equal equal_bool
      Agrees
  uint_order o (int v) h g =
      uints o v (uint o) (int v) h g (refl, refl, refl, refl, refl) (refl, refl, refl, refl, refl)
  uint_order o (uint v) h g =
      uints o v (uint o) (uint v) h g (refl, refl, refl, refl, refl) (refl, refl, refl, refl, refl)
  uint_order o (char v) h g =
      uints o (extend v) (uint o) (char v) h (extend-lt v g) (refl, refl, refl, refl, refl)
        (refl, refl, refl, refl, refl)
  uint_order o (bool true) h g =
      uints o 1 (uint o) (bool true) h (omega arith) (refl, refl, refl, refl, refl)
        (refl, refl, refl, refl, ground arith)
  uint_order o (bool false) h g =
      uints o 0 (uint o) (bool false) h (omega arith) (refl, refl, refl, refl, refl)
        (refl, refl, refl, refl, ground arith)
  uint_order o nil_value h g =
      nil_above (uint o) (refl, refl, refl, refl, refl) (refl, refl, refl, refl, refl)
  uint_order o _ h g = absurd g

  chars_order : (o v : ℕ) → o < 2 ^ 32 → v < 2 ^ 32 → Ordered (char o) (char v)
  unfolding InRange binary_op int_op uint_op char_op bool_op nil_op arithmetic comparison with_rune
      beside_nil nil_left equal int_equal uint_equal char_equal bool_equal nil_equal equal_bool
      Agrees
  chars_order o v h g =
      by_words 32 true o v (char o) (char v) rune-Flips h g (refl, refl, refl, refl, refl)
        (refl, refl, refl, refl, refl)

  bools_order : (o v : Bool) → Ordered (bool o) (bool v)
  unfolding InRange binary_op int_op uint_op char_op bool_op nil_op arithmetic comparison with_rune
      beside_nil nil_left equal int_equal uint_equal char_equal bool_equal nil_equal equal_bool
      Agrees
  bools_order true true =
      ints 1 1 (bool true) (bool true) (omega arith) (omega arith) (refl, refl, refl, refl, refl)
        (refl, refl, refl, refl, refl)
  bools_order true false =
      ints 1 0 (bool true) (bool false) (omega arith) (omega arith) (refl, refl, refl, refl, refl)
        (refl, refl, refl, refl, refl)
  bools_order false true =
      ints 0 1 (bool false) (bool true) (omega arith) (omega arith) (refl, refl, refl, refl, refl)
        (refl, refl, refl, refl, refl)
  bools_order false false =
      ints 0 0 (bool false) (bool false) (omega arith) (omega arith) (refl, refl, refl, refl, refl)
        (refl, refl, refl, refl, refl)

  nil_order : (b : Object F D T) → InRange b → Ordered nil_value b
  unfolding InRange binary_op int_op uint_op char_op bool_op nil_op arithmetic comparison with_rune
      beside_nil nil_left equal int_equal uint_equal char_equal bool_equal nil_equal equal_bool
      Agrees
  nil_order (int v) g =
      nil_below (int v) (refl, refl, refl, refl, refl) (refl, refl, refl, refl, refl)
  nil_order (uint v) g =
      nil_below (uint v) (refl, refl, refl, refl, refl) (refl, refl, refl, refl, refl)
  nil_order (char v) g =
      nil_below (char v) (refl, refl, refl, refl, refl) (refl, refl, refl, refl, refl)
  nil_order (bool v) g =
      nil_below (bool v) (refl, refl, refl, refl, refl) (refl, refl, refl, refl, refl)
  nil_order nil_value g = (
    false,
    true,
    false,
    inr (inl (refl, refl, refl)),
    (refl, refl, refl, refl, refl),
    (refl, refl, refl, refl, refl),
  )
  nil_order _ g = absurd g

  -- Two numbers, booleans or nils in the range of their types, but for a boolean beside a rune, are
  -- in one of the three orders, and `<`, `<=`, `>` and `>=` and `Equal` give what that order says, with
  -- either of the two on the left; none of them is an error.
  pub binary_op-Ordered :
      (a b : Object F D T) → InRange a → InRange b → Comparable a b → Ordered a b
  unfolding InRange Comparable
  binary_op-Ordered (int o) b h g c = int_order o b h g
  binary_op-Ordered (uint o) b h g c = uint_order o b h g
  binary_op-Ordered (char o) (int v) h g c =
      Ordered-flip (int v) (char o) (int_order v (char o) g h)
  binary_op-Ordered (char o) (uint v) h g c =
      Ordered-flip (uint v) (char o) (uint_order v (char o) g h)
  binary_op-Ordered (char o) (char v) h g c = chars_order o v h g
  binary_op-Ordered (char o) nil_value h g c =
      Ordered-flip nil_value (char o) (nil_order (char o) h)
  binary_op-Ordered (bool o) (int v) h g c =
      Ordered-flip (int v) (bool o) (int_order v (bool o) g h)
  binary_op-Ordered (bool o) (uint v) h g c =
      Ordered-flip (uint v) (bool o) (uint_order v (bool o) g h)
  binary_op-Ordered (bool o) (bool v) h g c = bools_order o v
  binary_op-Ordered (bool o) nil_value h g c =
      Ordered-flip nil_value (bool o) (nil_order (bool o) h)
  binary_op-Ordered nil_value b h g c = nil_order b g
  binary_op-Ordered (char o) (bool v) h g c = absurd c
  binary_op-Ordered (bool o) (char v) h g c = absurd c
  binary_op-Ordered (char o) _ h g c = absurd g
  binary_op-Ordered (bool o) _ h g c = absurd g
  binary_op-Ordered _ b h g c = absurd h
