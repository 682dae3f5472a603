-- ===== src/Handlers/Leftovers.antt =====
-- A try statement that completes normally leaves its handler behind, without targets.
use gad.Prelude.{
  ℕ, ◌+◌, ◌-◌, ◌<◌, ◌≡◌, ◌≢◌, refl, sym, ap, ◌∙◌, true, Option, none, some, List, [], ◌∷◌, ltb,
  if◌then◌else◌, arith,
}
use gad.Prelude.Result.{◌>>=◌}
use gad.Handlers.{
  ErrHandler, ErrHandlers, Vm, go_to, target_of, setup_try, setup_finally, throw_system, caught_by,
  throw_callers, throw_current, throw,
}

-- What a try statement leaves in the frame.
left_by_try : ℕ → List ErrHandler → List ErrHandler
left_by_try height hs = record { sp = height; catch = 0; finally = 0; return_to = 0 } ∷ hs

module _ {V E : Type 0} where
  -- A try statement with a body, where no error is thrown, and an empty finally block.
  unfoldable pub run_try : ℕ → ℕ → (Vm V E → Option (Vm V E)) → Vm V E → Option (Vm V E)
  run_try c f body vm = do v ← body (setup_try c f vm); throw_system (setup_finally v)

  -- The frame of a called function starts without handlers; its code and its locals do not matter here.
  unfoldable pub call : Vm V E → Vm V E
  call vm = record {
    ip = 0;
    height = vm.height;
    stack = vm.stack;
    current = record { handlers = []; error = none };
    callers = vm.current ∷ vm.callers;
  }

  run_try-some :
      (c f : ℕ) (vm : Vm V E)
      → vm.current.error ≡ none
      → (v : Vm V E) × (run_try c f some vm ≡ some v)
        × (v.current.error ≡ none)
        × (v.height ≡ vm.height)
        × (v.callers ≡ vm.callers)
        × (v.current.handlers ≡ left_by_try vm.height vm.current.handlers)
  unfolding run_try setup_try setup_finally throw_system left_by_try
  run_try-some c f vm clear =
      let v : Vm V E = record {
        ip = vm.ip + 4 + 1;
        height = vm.height;
        stack = vm.stack;
        current = record {
          handlers = left_by_try vm.height vm.current.handlers;
          error = vm.current.error;
        };
        callers = vm.callers;
      } in
      (v, rw clear refl, clear, refl, refl, refl)

  -- After a try statement whose body was a try statement, where no error was thrown, an error goes to
  -- the catch block of the outer statement, although that has ended; the frame had no error before.
  pub throw-nested_try :
      (c₁ f₁ c₂ f₂ : ℕ) (e : E) (vm : Vm V E)
      → vm.current.error ≡ none
      → 0 < c₁
      → (v : Vm V E) × (w : Vm V E) × (run_try c₁ f₁ (run_try c₂ f₂ some) vm ≡ some v)
        × (throw e v ≡ some w)
        × (w.ip ≡ c₁ - 1)
  unfolding run_try setup_try setup_finally throw_system left_by_try throw throw_current caught_by
      target_of go_to
  throw-nested_try c₁ f₁ c₂ f₂ e vm clear positive =
      let t : ltb 0 c₁ ≡ true = ground arith in
      let v : Vm V E = record {
        ip = vm.ip + 4 + 4 + 1 + 1;
        height = vm.height;
        stack = vm.stack;
        current = record {
          handlers = left_by_try vm.height (
              record { sp = vm.height; catch = c₁; finally = f₁; return_to = 0 }
              ∷ vm.current.handlers);
          error = vm.current.error;
        };
        callers = vm.callers;
      } in
      let outer : ErrHandler = record { sp = vm.height; catch = c₁; finally = f₁; return_to = 0 } in
      (
        v,
        caught_by outer vm.current.handlers e vm.callers v,
        rw clear refl,
        rw (t, t) refl,
        rw t refl,
      )

  throw_callers-last :
      (e : E) (frame : ErrHandlers E) (vm : Vm V E) {h : ErrHandler} {hs : List ErrHandler}
      → frame.handlers ≡ h ∷ hs
      → throw_callers e (frame ∷ []) vm
        ≡ (if ltb 0 (target_of h) then some (caught_by h hs e [] vm) else none)
  unfolding throw_callers
  throw_callers-last e frame vm p = rw p refl

  -- A throw in a function that the outermost frame calls.
  throw-outermost :
      (e : E) (vm : Vm V E) {h : ErrHandler} {hs : List ErrHandler}
      → vm.callers ≡ []
      → vm.current.handlers ≡ h ∷ hs
      → throw e (call vm)
        ≡ (if ltb 0 (target_of h) then some (caught_by h hs e [] (call vm)) else none)
  unfolding throw throw_current call
  throw-outermost e vm outermost handlers =
      ap (λ fs. throw_callers e (vm.current ∷ fs) (call vm)) outermost
      ∙ throw_callers-last e vm.current (call vm) handlers

  -- In the outermost frame, inside a try statement with a block left, an error thrown in a called
  -- function is handled; after a try statement without an error in the same place, it is not.
  pub throw-call :
      (c f : ℕ) (e : E) (vm : Vm V E) (h : ErrHandler) (hs : List ErrHandler)
      → vm.current.error ≡ none
      → vm.callers ≡ []
      → vm.current.handlers ≡ h ∷ hs
      → 0 < target_of h
      → (v : Vm V E) × (run_try c f some vm ≡ some v)
        × (throw e (call vm) ≢ none)
        × (throw e (call v) ≡ none)
  unfolding left_by_try target_of
  throw-call c f e vm h hs clear outermost handlers positive =
      let t : ltb 0 (target_of h) ≡ true = ground arith in
      let (v, run, _, _, callers, left) = run_try-some c f vm clear in
      (
        v,
        run,
        (λ unhandled.
            let q = sym (throw-outermost e vm outermost handlers) ∙ unhandled in
            caught (rw t at q)),
        throw-outermost e v (callers ∙ outermost) left,
      )
    where
      caught : {w : Vm V E} → ¬ (some w ≡ none)
      caught q = ground arith
