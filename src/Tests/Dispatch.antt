-- ===== src/Tests/Dispatch.antt =====
-- A function of an int or a text and of anything, 1 and 2 being these types, with a method for a text
-- and a list, 3.
use gad.Prelude.{
  ℕ, ◌≡◌, refl, ◌⊎◌, inl, true, false, Option, none, some, List, [], ◌∷◌, ◌++◌, map, if◌then◌else◌,
}
use gad.Prelude.Result.{ok}
use gad.Args.{Args, fresh}
use gad.Args.Flat.{flatten}
use gad.Methods.{TypeKey, CallerMethod, MethodArgType, arg_type, no_entries}
use gad.Methods.Signature.{tree, walk_node}
use gad.Methods.Product.{choices, call_each, walk_node-tree}
use gad.Methods.Picks.{IsOne, Picks}
use gad.Methods.Table.{MethodError, method_duplication, is_taken, add_method, add_types, get_method}
use gad.Methods.Paths.{same_path, methods_at}
use gad.Methods.Adding.{held, add_method-eq}
use gad.Methods.Indexes.{IsIndexed, add_types-IsIndexed}
use gad.Methods.Wildcard.{Fits}
use gad.Methods.Caller.{
  Callable, CallerObjectWithMethods, new_caller, method_of, add_caller_method, caller_of,
  caller_of_types, validates,
}
use gad.Methods.Calls.{
  Reach, created, added, caller_of-Fits, add_caller_method-caller_of, new_caller-IsIndexed,
}

abbrev int_or_text : List (List ℕ)
int_or_text = (1 ∷ 2 ∷ []) ∷ [] ∷ []

abbrev text_list : List (List ℕ)
text_list = (2 ∷ []) ∷ (3 ∷ []) ∷ []

abbrev callable_with : List (List ℕ) → Callable ℕ ℕ
callable_with types = record {
  param_types = λ _. some (ok types);
  go_methods = λ _. [];
  can_validate = λ _. some true;
}

abbrev callable : Callable ℕ ℕ
callable = callable_with int_or_text

abbrev object : CallerObjectWithMethods ℕ
object = (add_caller_method callable text_list 8 false (new_caller 7)).1

object-Reach : Reach callable 7 object
object-Reach = added text_list 8 false created

-- The paths that a walk has met.
abbrev note : List TypeKey → List (List TypeKey) → Option ℕ × List (List TypeKey)
note path seen = (none, seen ++ path ∷ [])

seen_paths :
    (walk_node note [] (tree int_or_text) []).1 ≡ (some 1 ∷ none ∷ []) ∷ (some 2 ∷ none ∷ []) ∷ []
unfolding walk_node tree gad.Methods.Signature.append_types gad.Methods.Signature.add_branches
    gad.Methods.Signature.add_child gad.Methods.Signature.append_child gad.Methods.Signature.label
seen_paths = refl

text_and_list : caller_of_types callable object (some 2 ∷ some 3 ∷ []) ≡ (8, false)
unfolding caller_of_types add_caller_method new_caller gad.Methods.Caller.chosen get_method
    gad.Methods.Table.get_loop gad.Methods.Table.pick gad.Methods.find_type gad.Methods.next
    gad.Methods.Caller.add_after gad.Methods.Caller.register_first gad.Methods.Caller.register_by
    gad.Methods.Caller.add_handler add_types walk_node tree gad.Methods.Signature.append_types
    gad.Methods.Signature.add_branches gad.Methods.Signature.add_child
    gad.Methods.Signature.append_child gad.Methods.Caller.add_go_methods
    gad.Methods.Caller.as_registered method_of gad.Methods.Caller.register_default validates
    gad.Methods.Signature.label add_method gad.Methods.Table.entry_of gad.Methods.Table.is_empty
    is_taken gad.Methods.Table.last_method gad.Methods.Table.placed gad.Methods.own_methods
    gad.Methods.store_type
text_and_list = refl

-- A method for a text and a list hides one for any two arguments: the lookup does not go back.
hidden_method :
    let any = callable_with ([] ∷ [] ∷ []) in
    let one = (add_caller_method any text_list 8 false (new_caller 7)).1 in
    caller_of_types any (add_caller_method any ([] ∷ [] ∷ []) 9 true one).1 (some 2 ∷ some 4 ∷ [])
    ≡ (7, true)
unfolding caller_of_types add_caller_method new_caller gad.Methods.Caller.chosen get_method
    gad.Methods.Table.get_loop gad.Methods.Table.pick gad.Methods.find_type gad.Methods.next
    gad.Methods.Caller.add_after gad.Methods.Caller.register_first gad.Methods.Caller.register_by
    gad.Methods.Caller.add_handler add_types walk_node tree gad.Methods.Signature.append_types
    gad.Methods.Signature.add_branches gad.Methods.Signature.add_child
    gad.Methods.Signature.append_child gad.Methods.Caller.add_go_methods
    gad.Methods.Caller.as_registered method_of gad.Methods.Caller.register_default validates
    gad.Methods.Signature.label add_method gad.Methods.Table.entry_of gad.Methods.Table.is_empty
    is_taken gad.Methods.Table.last_method gad.Methods.Table.placed gad.Methods.own_methods
    gad.Methods.store_type
hidden_method = refl

walk_node-tree_example :
    walk_node note [] (tree int_or_text) [] ≡ call_each note [] (choices int_or_text) []
walk_node-tree_example = walk_node-tree note int_or_text []

add_method-eq_example :
    ((add_method [] (some 2 ∷ none ∷ []) (method_of false 9) false object.methods).0 ≡ (
      if is_taken false (methods_at (some 2 ∷ none ∷ []) object.methods)
      then some method_duplication
      else none))
    × (methods_at
          (some 1 ∷ none ∷ [])
          (add_method [] (some 2 ∷ none ∷ []) (method_of false 9) false object.methods).1
        ≡ (if same_path (some 2 ∷ none ∷ []) (some 1 ∷ none ∷ [])
            then held []
                (some 2 ∷ none ∷ [])
                (method_of false 9)
                false
                (methods_at (some 2 ∷ none ∷ []) object.methods)
            else methods_at (some 1 ∷ none ∷ []) object.methods))
add_method-eq_example =
    add_method-eq (some 2 ∷ none ∷ []) (some 1 ∷ none ∷ []) (method_of false 9) false object.methods

add_types-IsIndexed_example :
    IsIndexed {H = ℕ} (add_types int_or_text (method_of false 9) true (new_caller 7).methods).1
add_types-IsIndexed_example =
    add_types-IsIndexed int_or_text (method_of false 9) true (new_caller 7).methods
      (new_caller-IsIndexed 7)

abbrev call_text_list : Args ℕ
call_text_list = fresh ((2 ∷ []) ∷ (3 ∷ []) ∷ [])

caller_of-Fits_example :
    (caller_of callable some object call_text_list ≡ (7, validates callable 7))
    ⊎ ((m : CallerMethod ℕ) × (get_method object.methods (map some (flatten call_text_list.rows))
          ≡ some m)
        × Fits m.types (map some (flatten call_text_list.rows))
        × (caller_of callable some object call_text_list ≡ (m.caller_object, false)))
caller_of-Fits_example = caller_of-Fits callable some call_text_list object-Reach

added_twice : (add_caller_method callable text_list 9 true object).0 ≡ none
unfolding caller_of_types add_caller_method new_caller gad.Methods.Caller.chosen get_method
    gad.Methods.Table.get_loop gad.Methods.Table.pick gad.Methods.find_type gad.Methods.next
    gad.Methods.Caller.add_after gad.Methods.Caller.register_first gad.Methods.Caller.register_by
    gad.Methods.Caller.add_handler add_types walk_node tree gad.Methods.Signature.append_types
    gad.Methods.Signature.add_branches gad.Methods.Signature.add_child
    gad.Methods.Signature.append_child gad.Methods.Caller.add_go_methods
    gad.Methods.Caller.as_registered method_of gad.Methods.Caller.register_default validates
    gad.Methods.Signature.label add_method gad.Methods.Table.entry_of gad.Methods.Table.is_empty
    is_taken gad.Methods.Table.last_method gad.Methods.Table.placed gad.Methods.own_methods
    gad.Methods.store_type
added_twice = refl

text_list-Picks : Picks text_list (2 ∷ 3 ∷ [])
unfolding Picks IsOne
text_list-Picks = (inl refl, (inl refl, tt))

add_caller_method-caller_of_example :
    caller_of callable some (add_caller_method callable text_list 9 true object).1 call_text_list
    ≡ (9, false)
unfolding flatten
add_caller_method-caller_of_example =
    add_caller_method-caller_of callable some text_list 9 true object call_text_list (2 ∷ 3 ∷ [])
      added_twice refl text_list-Picks
