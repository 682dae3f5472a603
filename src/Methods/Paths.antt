-- ===== src/Methods/Paths.antt =====
-- A table of methods as a map from paths of types to lists of methods: what is stored at a path.
use gad.Prelude.{
  Bool, true, false, ◌&&◌, Option, none, some, List, [], ◌∷◌, ◌≡◌, refl, ap, ◌↔◌, arith,
  if◌then◌else◌, Bool-cases, inl, inr, ==_iff,
}
use gad.Methods.{
  TypeKey, same_type, CallerMethod, MethodArgType, Methods, arg_type, no_entries, entry,
  own_methods, next, find_type, store_type,
}
use gad.Methods.Table.{entry_of}

pub same_type_refl : (k : TypeKey) → same_type k k ≡ true
same_type_refl none = refl
same_type_refl (some a) = ground (arith, ==_iff a a)

pub same_type→eq : (j k : TypeKey) → same_type j k ≡ true → j ≡ k
same_type→eq none none h = refl
same_type→eq none (some b) h = ground arith
same_type→eq (some a) none h = ground arith
same_type→eq (some a) (some b) h = ap some ((==_iff a b).0 h)

pub same_type_iff : (j k : TypeKey) → (same_type j k ≡ true) ↔ (j ≡ k)
same_type_iff j k = (same_type→eq j k, λ e. rw e (same_type_refl k))

abbrev pub same_path : List TypeKey → List TypeKey → Bool
same_path [] [] = true
same_path [] (k ∷ ks) = false
same_path (j ∷ js) [] = false
same_path (j ∷ js) (k ∷ ks) = same_type j k && same_path js ks

pub same_path_refl : (ks : List TypeKey) → same_path ks ks ≡ true
same_path_refl [] = refl
same_path_refl (k ∷ ks) = rw (same_type_refl k) (same_path_refl ks)

pub same_path→eq : (js ks : List TypeKey) → same_path js ks ≡ true → js ≡ ks
same_path→eq [] [] h = refl
same_path→eq [] (k ∷ ks) h = ground arith
same_path→eq (j ∷ js) [] h = ground arith
same_path→eq (j ∷ js) (k ∷ ks) h = elim (Bool-cases (same_type j k)) [
  | inl e ↦ ground (arith, same_type→eq j k e, same_path→eq js ks)
  | inr e ↦ ground arith
]

module _ {ℓ} {H : Type ℓ} where
  -- The methods stored at a path of types, without a regard to the nil type as a wildcard.
  unfoldable pub methods_at : List TypeKey → MethodArgType H → List (CallerMethod H)
  methods_at [] at = own_methods at
  methods_at (k ∷ ks) at = elim (find_type (next at) k) [
    | none ↦ []
    | some found ↦ methods_at ks found
  ]

  pub find_type-store_type :
      (args : Methods H) (k : TypeKey) (at : MethodArgType H) (j : TypeKey)
      → find_type (store_type args k at) j ≡ (if same_type k j then some at else find_type args j)
  unfolding find_type store_type
  find_type-store_type no_entries k at j = refl
  find_type-store_type (entry i old args) k at j = ground (
    arith,
    same_type_iff i k,
    same_type_iff k j,
    same_type_iff i j,
    find_type-store_type args k at j,
  )

  -- A new entry holds nothing.
  methods_at-new :
      (ks : List TypeKey) (k : TypeKey) (at : MethodArgType H)
      → at ≡ arg_type k [] no_entries
      → methods_at ks at ≡ []
  unfolding methods_at own_methods next find_type
  methods_at-new [] k at e = rw e refl
  methods_at-new (j ∷ ks) k at e = rw e refl

  abbrev pub methods_in : List TypeKey → Option (MethodArgType H) → List (CallerMethod H)
  methods_in ks none = []
  methods_in ks (some found) = methods_at ks found

  abbrev or_new : TypeKey → Option (MethodArgType H) → MethodArgType H
  or_new k none = arg_type k [] no_entries
  or_new k (some found) = found

  methods_at-or_new :
      (k : TypeKey) (ks : List TypeKey) (o : Option (MethodArgType H))
      → methods_at ks (or_new k o) ≡ methods_in ks o
  methods_at-or_new k ks none = methods_at-new ks k (arg_type k [] no_entries) refl
  methods_at-or_new k ks (some found) = refl

  pub methods_at-entry_of :
      (k : TypeKey) (ks : List TypeKey) (args : Methods H)
      → methods_at ks (entry_of k args) ≡ methods_in ks (find_type args k)
  unfolding entry_of
  methods_at-entry_of k ks args = methods_at-or_new k ks (find_type args k)
