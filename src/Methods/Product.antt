-- ===== src/Methods/Product.antt =====
-- The walk over the tree of a signature goes through the choices of one type for each parameter.
use gad.Prelude.{
  ℕ, Option, none, some, List, [], ◌∷◌, ◌++◌, map, append_assoc, append-nil, ◌≡◌, refl, sym, ap,
  ◌∙◌,
}
use mathlib.Core.Path.{fun_ext}
use gad.Methods.{TypeKey}
use gad.Methods.Signature.{
  ObjectTypeNode, Children, type_node, no_children, child, append_child, label, add_child,
  add_branches, append_types, tree, and_then, walk_node, walk_children,
}

-- What a parameter accepts: its types, or anything where it names none.
unfoldable pub slot : List ℕ → List TypeKey
slot [] = none ∷ []
slot (t ∷ ts) = map some (t ∷ ts)

abbrev pub each {ℓ κ} : {A : Type ℓ} {B : Type κ} → (A → List B) → List A → List B
each f [] = []
each f (x ∷ xs) = f x ++ each f xs

-- The choices of one type for each parameter, the last parameter's varying first.
unfoldable pub choices : List (List ℕ) → List (List TypeKey)
choices [] = [] ∷ []
choices (o ∷ os) = each (λ t. map (◌∷◌ t) (choices os)) (slot o)

abbrev children : ObjectTypeNode → Children
children (type_node t cs) = cs

label-add_branches :
    (grow : ObjectTypeNode → ObjectTypeNode) (ts : List ℕ) (n : ObjectTypeNode)
    → label (add_branches grow ts n) ≡ label n
unfolding add_branches label add_child
label-add_branches grow [] n = refl
label-add_branches grow (t ∷ ts) (type_node k cs) = label-add_branches grow ts _

label-append_types : (os : List (List ℕ)) (n : ObjectTypeNode) → label (append_types os n) ≡ label n
unfolding append_types label add_child
label-append_types [] n = refl
label-append_types ([] ∷ os) (type_node k cs) = refl
label-append_types ((t ∷ ts) ∷ os) n = label-add_branches (append_types os) (t ∷ ts) n

module _ {ℓ κ} {S : Type ℓ} {E : Type κ} where
  and_then-none : (r : Option E × S) → and_then r (λ s. (none, s)) ≡ r
  and_then-none (none, s) = refl
  and_then-none (some e, s) = refl

  and_then_assoc :
      (r : Option E × S) (f g : S → Option E × S)
      → and_then (and_then r f) g ≡ and_then r (λ s. and_then (f s) g)
  and_then_assoc (none, s) f g = refl
  and_then_assoc (some e, s) f g = refl

module _ {ℓ κ} {S : Type ℓ} {E : Type κ} (cb : List TypeKey → S → Option E × S) where
  -- The callback on a prefix of each path of a list, up to the first that returns a value.
  unfoldable pub call_each : List TypeKey → List (List TypeKey) → S → Option E × S
  call_each pre [] s = (none, s)
  call_each pre (q ∷ qs) s = and_then (cb (pre ++ q) s) (call_each pre qs)

  call_each-append :
      (pre : List TypeKey) (ps qs : List (List TypeKey)) (s : S)
      → call_each pre (ps ++ qs) s ≡ and_then (call_each pre ps s) (call_each pre qs)
  unfolding call_each
  call_each-append pre [] qs s = refl
  call_each-append pre (p ∷ ps) qs s =
      ap (and_then (cb (pre ++ p) s)) (fun_ext λ t. call_each-append pre ps qs t)
      ∙ sym (and_then_assoc (cb (pre ++ p) s) (call_each pre ps) (call_each pre qs))

  call_each-map :
      (pre : List TypeKey) (t : TypeKey) (qs : List (List TypeKey)) (s : S)
      → call_each pre (map (◌∷◌ t) qs) s ≡ call_each (pre ++ t ∷ []) qs s
  unfolding call_each
  call_each-map pre t [] s = refl
  call_each-map pre t (q ∷ qs) s =
      rw (append_assoc pre (t ∷ []) q)
        (ap (and_then (cb (pre ++ t ∷ q) s)) (fun_ext λ r. call_each-map pre t qs r))

  walk_children-append_child :
      (p : List TypeKey) (cs : Children) (c : ObjectTypeNode) (s : S)
      → walk_children cb p (append_child cs c) s
        ≡ and_then (walk_children cb p cs s) (walk_node cb (p ++ label c ∷ []) c)
  unfolding walk_node append_child
  walk_children-append_child p no_children c s = and_then-none _
  walk_children-append_child p (child d cs) c s =
      ap (and_then (walk_node cb (p ++ label d ∷ []) d s))
        (fun_ext λ r. walk_children-append_child p cs c r)
      ∙ sym (and_then_assoc (walk_node cb (p ++ label d ∷ []) d s) (walk_children cb p cs) _)

  -- The callback is called at a node only if the node is a leaf.
  abbrev IsInner : ObjectTypeNode → Type (ℓ ⊔ κ)
  IsInner n = (p : List TypeKey) (s : S) → walk_node cb p n s ≡ walk_children cb p (children n) s

  add_child-IsInner : (n c : ObjectTypeNode) → IsInner (add_child n c)
  unfolding add_child append_child walk_node
  add_child-IsInner (type_node t no_children) c p s = refl
  add_child-IsInner (type_node t (child d cs)) c p s = refl

  add_branches-IsInner :
      (grow : ObjectTypeNode → ObjectTypeNode) (ts : List ℕ) (n : ObjectTypeNode)
      → IsInner n
      → IsInner (add_branches grow ts n)
  unfolding add_branches
  add_branches-IsInner grow [] n h = h
  add_branches-IsInner grow (t ∷ ts) n h =
      add_branches-IsInner grow ts _ (add_child-IsInner n (grow (type_node (some t) no_children)))

  walk_children-add_child :
      (p : List TypeKey) (n c : ObjectTypeNode) (s : S)
      → walk_children cb p (children (add_child n c)) s
        ≡ and_then (walk_children cb p (children n) s) (walk_node cb (p ++ label c ∷ []) c)
  unfolding add_child
  walk_children-add_child p (type_node t cs) c s = walk_children-append_child p cs c s

  -- A subtree grown from a leaf walks the choices of the parameters behind it.
  abbrev IsWalked : (ObjectTypeNode → ObjectTypeNode) → List (List TypeKey) → Type (ℓ ⊔ κ)
  IsWalked grow qs =
      (p : List TypeKey) (t : TypeKey) (s : S)
      → (label (grow (type_node t no_children)) ≡ t)
        × (walk_node cb p (grow (type_node t no_children)) s ≡ call_each p qs s)

  walk_children-grown :
      (grow : ObjectTypeNode → ObjectTypeNode) (qs : List (List TypeKey))
      → IsWalked grow qs
      → (p : List TypeKey) (t : TypeKey) (n : ObjectTypeNode) (s : S)
      → walk_children cb p (children (add_child n (grow (type_node t no_children)))) s
        ≡ and_then (walk_children cb p (children n) s) (call_each p (map (◌∷◌ t) qs))
  walk_children-grown grow qs h p t n s =
      walk_children-add_child p n (grow (type_node t no_children)) s
      ∙ ap (and_then (walk_children cb p (children n) s))
          (fun_ext λ r. rw ((h p t r).0) (((h (p ++ t ∷ []) t r).1) ∙ sym (call_each-map p t qs r)))

  walk_children-add_branches :
      (grow : ObjectTypeNode → ObjectTypeNode) (qs : List (List TypeKey))
      → IsWalked grow qs
      → (p : List TypeKey) (ts : List ℕ) (n : ObjectTypeNode) (s : S)
      → walk_children cb p (children (add_branches grow ts n)) s
        ≡ and_then
            (walk_children cb p (children n) s)
            (call_each p (each (λ t. map (◌∷◌ t) qs) (map some ts)))
  unfolding add_branches call_each
  walk_children-add_branches grow qs h p [] n s = sym (and_then-none _)
  walk_children-add_branches grow qs h p (t ∷ ts) n s =
      walk_children-add_branches grow qs h p ts _ s
      ∙ ap (λ r. and_then r (call_each p (each (λ k. map (◌∷◌ k) qs) (map some ts))))
          (walk_children-grown grow qs h p (some t) n s)
      ∙ and_then_assoc (walk_children cb p (children n) s) _ _
      ∙ ap (and_then (walk_children cb p (children n) s))
          (fun_ext λ r. sym (call_each-append p (map (◌∷◌ (some t)) qs) _ r))

  append_types-IsWalked : (os : List (List ℕ)) → IsWalked (append_types os) (choices os)
  unfolding append_types choices slot call_each walk_node label add_branches
  append_types-IsWalked [] p t s = (
    label-append_types [] (type_node t no_children),
    rw (append-nil p) (sym (and_then-none (cb p s))),
  )
  append_types-IsWalked ([] ∷ os) p t s = (
    label-append_types ([] ∷ os) (type_node t no_children),
    add_child-IsInner _ _ p s
        ∙ walk_children-grown (append_types os) (choices os) (append_types-IsWalked os) p none _ s
        ∙ ap (λ qs. call_each p qs s) (sym (append-nil (map (◌∷◌ none) (choices os)))),
  )
  append_types-IsWalked ((k ∷ ks) ∷ os) p t s = (
    label-append_types ((k ∷ ks) ∷ os) (type_node t no_children),
    add_branches-IsInner (append_types os) ks _ (add_child-IsInner _ _) p s
        ∙ walk_children-add_branches (append_types os) (choices os) (append_types-IsWalked os) p
            (k ∷ ks) _ s,
  )

  -- The walk over the tree of a signature calls back once for each choice of a type for each
  -- parameter, in their order, until a call returns a value.
  pub walk_node-tree :
      (types : List (List ℕ)) (s : S)
      → walk_node cb [] (tree types) s ≡ call_each [] (choices types) s
  unfolding tree
  walk_node-tree types s = (append_types-IsWalked types [] none s).1
