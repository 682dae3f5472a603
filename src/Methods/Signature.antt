-- ===== src/Methods/Signature.antt =====
-- `MultipleObjectTypes` of methods.go, the types of each parameter of a signature, and the tree of
-- `ObjectTypeNode` over which a method is added once for each choice of types.
use gad.Prelude.{ℕ, Option, none, some, List, [], ◌∷◌, ◌++◌}
use gad.Methods.{TypeKey}

mutual
  pub data ObjectTypeNode : Type 0 where
    type_node : TypeKey → Children → ObjectTypeNode

  pub data Children : Type 0 where
    no_children : Children
    child : ObjectTypeNode → Children → Children

-- `n.Children = append(n.Children, c)`
unfoldable pub append_child : Children → ObjectTypeNode → Children
append_child no_children c = child c no_children
append_child (child d cs) c = child d (append_child cs c)

unfoldable pub label : ObjectTypeNode → TypeKey
label (type_node t cs) = t

unfoldable pub add_child : ObjectTypeNode → ObjectTypeNode → ObjectTypeNode
add_child (type_node t cs) c = type_node t (append_child cs c)

-- The loop over the types of one parameter; `grow` appends the parameters behind it.
unfoldable pub add_branches :
    (ObjectTypeNode → ObjectTypeNode) → List ℕ → ObjectTypeNode → ObjectTypeNode
add_branches grow [] n = n
add_branches grow (t ∷ ts) n =
    add_branches grow ts (add_child n (grow (type_node (some t) no_children)))

unfoldable pub append_types : List (List ℕ) → ObjectTypeNode → ObjectTypeNode
append_types [] n = n
append_types ([] ∷ os) n = add_child n (append_types os (type_node none no_children))
append_types ((t ∷ ts) ∷ os) n = add_branches (append_types os) (t ∷ ts) n

unfoldable pub tree : List (List ℕ) → ObjectTypeNode
tree types = append_types types (type_node none no_children)

-- What follows a callback that returned `r`, a value or nil, and left a state.
abbrev pub and_then {ℓ κ} :
    {S : Type ℓ} {E : Type κ} → Option E × S → (S → Option E × S) → Option E × S
and_then (some e, s) go = (some e, s)
and_then (none, s) go = go s

-- The callback has a state, and the walk stops where it returns a value.
module _ {ℓ κ} {S : Type ℓ} {E : Type κ} (cb : List TypeKey → S → Option E × S) where
  unfoldable mutual
    pub walk_node : List TypeKey → ObjectTypeNode → S → Option E × S
    walk_node path (type_node t no_children) s = cb path s
    walk_node path (type_node t (child c cs)) s = walk_children path (child c cs) s

    pub walk_children : List TypeKey → Children → S → Option E × S
    walk_children path no_children s = (none, s)
    walk_children path (child c cs) s =
        and_then (walk_node (path ++ label c ∷ []) c s) (walk_children path cs)
