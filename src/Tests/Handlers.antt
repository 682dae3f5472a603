-- ===== src/Tests/Handlers.antt =====
-- try { try { return } finally { … } } finally { … }, and errors in such statements
use gad.Prelude.{ℕ, String, ◌≡◌, ◌≢◌, refl, none, some, List, [], ◌∷◌, arith}
use gad.Handlers.{ErrHandler, ErrHandlers, Vm, target_of, throw, setup_catch, without_catch}
use gad.Handlers.Returning.{pending, outer_handlers, run_finally, Neutral, run_finally-pending}
use gad.Handlers.Throwing.{AllLive, is_live, nearest, throw-nearest, throw-setup_catch}
use gad.Handlers.Leftovers.{run_try, call, throw-nested_try, throw-call}

abbrev handler : ℕ → ℕ → ℕ → ErrHandler
handler height c f = record { sp = height; catch = c; finally = f; return_to = 0 }

abbrev in_frame : List ErrHandler → List (ErrHandlers String) → Vm ℕ String
in_frame hs fs = record {
  ip = 7;
  height = 3;
  stack = (λ i. some i);
  current = record { handlers = hs; error = none };
  callers = fs;
}

-- Two statements with finally blocks, and one without between them.
abbrev nested : Vm ℕ String
nested = in_frame (handler 2 0 20 ∷ handler 1 15 0 ∷ handler 0 0 30 ∷ []) []

abbrev idle : ℕ → Vm ℕ String → Vm ℕ String
idle p vm = vm

idle-Neutral : Neutral idle
unfolding Neutral
idle-Neutral p vm e = (e, refl)

run_finally-pending_example :
    (w : Vm ℕ String) × (run_finally idle 4 0 nested ≡ some (pending 0 nested.current.handlers, w))
    × (w.ip ≡ 8)
    × (w.height ≡ 3)
    × (w.current.handlers ≡ outer_handlers 0 nested.current.handlers)
run_finally-pending_example =
    run_finally-pending idle idle-Neutral 4 0 nested (omega arith) (ground arith)

pending_test : pending 0 nested.current.handlers ≡ 20 ∷ 30 ∷ []
unfolding pending
pending_test = refl

-- A frame whose only handler has no block left, called from a frame that catches.
abbrev called : Vm ℕ String
called =
    in_frame (handler 2 0 0 ∷ []) (record { handlers = handler 1 15 0 ∷ []; error = none } ∷ [])

throw-nearest_example :
    throw "failed" called ≡ nearest "failed" (called.current ∷ called.callers) called
unfolding AllLive is_live target_of
throw-nearest_example = throw-nearest "failed" called (refl, refl)

abbrev catching : Vm ℕ String
catching = in_frame (handler 2 15 20 ∷ []) []

throw-setup_catch_example :
    (w : Vm ℕ String) × (throw "failed" catching ≡ some w)
    × (w.ip ≡ 14)
    × ((setup_catch 0 (λ e. 1) w).height ≡ 3)
    × ((setup_catch 0 (λ e. 1) w).stack 2 ≡ some 1)
    × ((setup_catch 0 (λ e. 1) w).stack 1 ≡ some 1)
    × ((setup_catch 0 (λ e. 1) w).current
        ≡ record { handlers = without_catch (handler 2 15 20) ∷ []; error = none })
throw-setup_catch_example =
    throw-setup_catch "failed" 0 (λ e. 1) catching (handler 2 15 20) [] refl (omega arith) 1
      (omega arith)

throw-nested_try_example :
    (v : Vm ℕ String) × (w : Vm ℕ String) × (run_try 15 20 (run_try 12 13 some) (in_frame [] [])
      ≡ some v)
    × (throw "failed" v ≡ some w)
    × (w.ip ≡ 14)
throw-nested_try_example = throw-nested_try 15 20 12 13 "failed" (in_frame [] []) refl (omega arith)

throw-call_example :
    (v : Vm ℕ String) × (run_try 12 13 some catching ≡ some v)
    × (throw "failed" (call catching) ≢ none)
    × (throw "failed" (call v) ≡ none)
unfolding target_of
throw-call_example =
    throw-call 12 13 "failed" catching (handler 2 15 20) [] refl refl refl (omega arith)
