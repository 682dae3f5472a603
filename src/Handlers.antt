-- ===== src/Handlers.antt =====
-- The error handlers of a frame, vm.go, and the instructions of try statements, vm_loop.go: what
-- they do to the handlers, the operand stack and the position. The trace of positions in an error and
-- the values in a frame but its handlers are left out.
pub mod Returning
pub mod Throwing
pub mod Leftovers
use mathlib.Core.Option
use gad.Prelude.{
  ℕ, suc, ◌+◌, ◌-◌, Bool, true, false, ◌&&◌, ◌||◌, Option, none, some, List, [], ◌∷◌, length, ltb,
  leb, ◌==◌, if◌then◌else◌,
}

-- `sp` is the height of the operand stack, the others are positions, or 0.
pub record ErrHandler : Type 0 where
  pub sp : ℕ
  pub catch : ℕ
  pub finally : ℕ
  pub return_to : ℕ

-- `errHandlers`, the innermost handler first; a nil one has no handlers and no error.
pub record ErrHandlers (E : Type 0) : Type 0 where
  pub handlers : List ErrHandler
  pub error : Option E

-- The machine: its position, the operand stack, where `none` is an empty cell, the handlers of the
-- current frame, and those of the frames that called it, the nearest first.
pub record Vm (V E : Type 0) : Type 0 where
  pub ip : ℕ
  pub height : ℕ
  pub stack : ℕ → Option V
  pub current : ErrHandlers E
  pub callers : List (ErrHandlers E)

-- The cells from `target` on are cleared up to and with that above the stack.
abbrev cleared {ℓ} : {V : Type ℓ} → ℕ → ℕ → (ℕ → Option V) → ℕ → Option V
cleared target height stack i = if leb target i && leb i height then none else stack i

abbrev pub without_catch : ErrHandler → ErrHandler
without_catch h = record { sp = h.sp; catch = 0; finally = h.finally; return_to = h.return_to }

abbrev pub without_targets : ErrHandler → ErrHandler
without_targets h = record { sp = h.sp; catch = 0; finally = 0; return_to = h.return_to }

abbrev pub on_last : (ErrHandler → ErrHandler) → List ErrHandler → List ErrHandler
on_last f [] = []
on_last f (h ∷ hs) = f h ∷ hs

-- Where a handler sends an error: to its catch block, or else to its finally block.
unfoldable pub target_of : ErrHandler → ℕ
target_of h = if ltb 0 h.catch then h.catch else h.finally

module _ {V E : Type 0} where
  -- The machine with other handlers in its current frame.
  abbrev pub with_handlers : List ErrHandler → Option E → Vm V E → Vm V E
  with_handlers hs e vm = record {
    ip = vm.ip;
    height = vm.height;
    stack = vm.stack;
    current = record { handlers = hs; error = e };
    callers = vm.callers;
  }

  -- The stack goes back to `target`, and the machine on from `position`.
  unfoldable pub go_to : ℕ → ℕ → Vm V E → Vm V E
  go_to target position vm = record {
    ip = position;
    height = target;
    stack = (λ i. if leb target vm.height then cleared target vm.height vm.stack i else vm.stack i);
    current = vm.current;
    callers = vm.callers;
  }

  -- `xOpSetupTry`, with its two operands.
  unfoldable pub setup_try : ℕ → ℕ → Vm V E → Vm V E
  setup_try c f vm =
      let h : ErrHandler = record { sp = vm.height; catch = c; finally = f; return_to = 0 } in
      record {
        ip = vm.ip + 4;
        height = vm.height;
        stack = vm.stack;
        current = record { handlers = h ∷ vm.current.handlers; error = vm.current.error };
        callers = vm.callers;
      }

  -- The value is pushed, the error or nil.
  unfoldable pub push : Option V → Vm V E → Vm V E
  push v vm = record {
    ip = vm.ip;
    height = vm.height + 1;
    stack = (λ i. if i == vm.height then v else vm.stack i);
    current = vm.current;
    callers = vm.callers;
  }

  -- `xOpSetupCatch`; `nil` is the object, `value_of` the object that an error is.
  unfoldable pub setup_catch : V → (E → V) → Vm V E → Vm V E
  unfolding push
  setup_catch nil value_of vm = elim vm.current.handlers [
    | [] ↦ push (some nil) vm
    | h ∷ hs ↦ elim vm.current.error [
      | none ↦ push (some nil) (with_handlers (without_catch h ∷ hs) none vm)
      | some e ↦ push (some (value_of e)) (with_handlers (without_catch h ∷ hs) none vm)
    ]
  ]

  -- `xOpSetupFinally`
  unfoldable pub setup_finally : Vm V E → Vm V E
  setup_finally vm = with_handlers (on_last without_targets vm.current.handlers) vm.current.error vm

  -- `handleThrownError` in a frame with the handlers `h ∷ hs`, where it does not pop `h`: the frame
  -- has the error, and the machine goes on in it.
  unfoldable pub caught_by :
      ErrHandler → List ErrHandler → E → List (ErrHandlers E) → Vm V E → Vm V E
  unfolding target_of
  caught_by h hs e callers vm = go_to h.sp (target_of h - 1) (record {
    ip = vm.ip;
    height = vm.height;
    stack = vm.stack;
    current = record { handlers = h ∷ hs; error = some e };
    callers = callers;
  })

  abbrev pub with_current : ErrHandlers E → Vm V E → Vm V E
  with_current f vm = record {
    ip = vm.ip;
    height = vm.height;
    stack = vm.stack;
    current = f;
    callers = vm.callers;
  }

  -- `throw` where the current frame has no handler; `none` is an error that nothing handles. A caller
  -- whose innermost handler has no target loses it, but `throw` then starts again below that caller,
  -- whose other handlers are not asked. When that handles the error, the outer `throw` still makes the
  -- caller that it had found the current frame.
  unfoldable pub throw_callers : E → List (ErrHandlers E) → Vm V E → Option (Vm V E)
  throw_callers e [] vm = none
  throw_callers e (f ∷ fs) vm =
      let rest = throw_callers e fs vm in
      elim f.handlers [
        | [] ↦ rest
        | h ∷ hs ↦
            if ltb 0 (target_of h)
            then some (caught_by h hs e fs vm)
            else Option.map (with_current (record { handlers = hs; error = some e })) rest
      ]

  -- `throw` with the handlers of the current frame that are left.
  unfoldable pub throw_current : E → List ErrHandler → Vm V E → Option (Vm V E)
  throw_current e [] vm = throw_callers e vm.callers vm
  throw_current e (h ∷ hs) vm =
      let rest = throw_current e hs vm in
      if ltb 0 (target_of h) then some (caught_by h hs e vm.callers vm) else rest

  unfoldable pub throw : E → Vm V E → Option (Vm V E)
  throw e vm = throw_current e vm.current.handlers vm

  -- `OpThrow` with operand 0, the end of a try statement: an error is thrown again, or the machine
  -- goes back to where a return was put off.
  unfoldable pub throw_system : Vm V E → Option (Vm V E)
  throw_system vm = elim vm.current.error [
    | some e ↦ elim vm.current.handlers [
      | [] ↦ throw_current e [] vm
      | h ∷ hs ↦ throw_current e hs vm
    ]
    | none ↦ elim vm.current.handlers [
      | [] ↦ some (step_over vm)
      | h ∷ hs ↦
          if ltb 0 h.return_to
          then some (go_to h.sp (h.return_to - 1) (with_handlers hs none vm))
          else some (step_over vm)
    ]
  ]
    where
      step_over : Vm V E → Vm V E
      step_over vm = record {
        ip = vm.ip + 1;
        height = vm.height;
        stack = vm.stack;
        current = vm.current;
        callers = vm.callers;
      }

-- `findFinally`: the innermost handler with a finally block, above the first `upto` ones; those
-- without one are popped on the way.
unfoldable pub find_finally : ℕ → List ErrHandler → ℕ × List ErrHandler
find_finally upto [] = (0, [])
find_finally upto (h ∷ hs) =
    let rest = find_finally upto hs in
    if ltb (length hs) upto
    then (0, h ∷ hs)
    else if h.finally == 0
    then rest
    else (h.finally, h ∷ hs)

abbrev pub put_off : ℕ → ℕ → ErrHandler → ErrHandler
put_off position height h = record {
  sp = height;
  catch = h.catch;
  finally = h.finally;
  return_to = position;
}

module _ {V E : Type 0} where
  -- `OpFinalizer`, before a return or a jump out of a try statement: the machine goes to the finally
  -- block to run next, or on where there is none.
  unfoldable pub finalizer : ℕ → Vm V E → Vm V E
  finalizer upto vm =
      let found = find_finally upto vm.current.handlers in
      if found.0 == 0
      then record {
        ip = vm.ip + 1;
        height = vm.height;
        stack = vm.stack;
        current = record { handlers = found.1; error = vm.current.error };
        callers = vm.callers;
      }
      else record {
        ip = found.0 - 1;
        height = vm.height;
        stack = vm.stack;
        current = record { handlers = on_last (put_off vm.ip vm.height) found.1; error = none };
        callers = vm.callers;
      }
