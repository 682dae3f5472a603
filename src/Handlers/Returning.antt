-- ===== src/Handlers/Returning.antt =====
-- A return out of try statements runs their finally blocks.
use gad.Prelude.{
  ℕ, zero, suc, ◌+◌, ◌-◌, ◌<◌, ◌≡◌, refl, sym, ap, ◌∙◌, true, false, Option, none, some, List, [],
  ◌∷◌, length, ltb, ◌==◌, if◌then◌else◌, arith, Bool-cases, inl, inr, ◌⊎◌,
}
use gad.Prelude.Result.{◌>>=◌}
use gad.Handlers.{
  ErrHandler, Vm, with_handlers, go_to, without_targets, setup_finally, throw_system, find_finally,
  put_off, finalizer,
}

-- The finally blocks of the handlers above the first `upto`, the innermost first.
unfoldable pub pending : ℕ → List ErrHandler → List ℕ
pending upto [] = []
pending upto (h ∷ hs) =
    let rest = pending upto hs in
    if ltb (length hs) upto then [] else if h.finally == 0 then rest else h.finally ∷ rest

unfoldable pub outer_handlers : ℕ → List ErrHandler → List ErrHandler
outer_handlers upto [] = []
outer_handlers upto (h ∷ hs) =
    let rest = outer_handlers upto hs in if ltb (length hs) upto then h ∷ hs else rest

-- What `find_finally` finds: nothing, or the handler of the first pending block.
pub find_finally-cases :
    (upto : ℕ) (hs : List ErrHandler)
    → ((pending upto hs ≡ []) × (find_finally upto hs ≡ (0, outer_handlers upto hs)))
      ⊎ ((h : ErrHandler) × (rest : List ErrHandler) × (find_finally upto hs
            ≡ (h.finally, h ∷ rest))
          × (0 < h.finally)
          × (pending upto hs ≡ h.finally ∷ pending upto rest)
          × (outer_handlers upto hs ≡ outer_handlers upto rest)
          × (length rest < length hs))
unfolding pending outer_handlers find_finally
find_finally-cases upto [] = inl (refl, refl)
find_finally-cases upto (h ∷ hs) = elim (Bool-cases (ltb (length hs) upto)) [
  | inl e ↦ inl (rw e refl, rw e refl)
  | inr e ↦ elim (Bool-cases (h.finally == 0)) [
    | inr d ↦ inr (h, hs, rw (e, d) refl, ground arith, rw (e, d) refl, rw e refl, omega arith)
    | inl d ↦ elim (find_finally-cases upto hs) [
      | inl (p, q) ↦ inl (rw (e, d) p, rw (e, d) q)
      | inr (g, rest, p, q, r, s, t) ↦
          inr (g, rest, rw (e, d) p, q, rw (e, d) r, rw e s, omega arith)
    ]
  ]
]

module _ {V E : Type 0} (body : ℕ → Vm V E → Vm V E) where
  -- A finally block that neither fails nor returns and leaves the handlers as they were, from `OpSetupFinally` to before `OpThrow`.
  unfoldable pub Neutral : Type 0
  Neutral =
      (p : ℕ) (vm : Vm V E)
      → vm.current.error ≡ none
      → ((body p vm).current.error ≡ none) × ((body p vm).current.handlers ≡ vm.current.handlers)

  -- The loop of the machine comes back to `OpFinalizer`.
  abbrev next_round : Vm V E → Vm V E
  next_round vm = record {
    ip = vm.ip + 1;
    height = vm.height;
    stack = vm.stack;
    current = vm.current;
    callers = vm.callers;
  }

  -- The blocks that run, by their positions, and the machine behind `OpFinalizer`.
  unfoldable pub run_finally : ℕ → ℕ → Vm V E → Option (List ℕ × Vm V E)
  run_finally zero upto vm = none
  run_finally (suc n) upto vm =
      let s = finalizer upto vm in
      if (find_finally upto vm.current.handlers).0 == 0 then some ([], s) else (do
        v ← throw_system (body (s.ip + 1) (setup_finally s))
        r ← run_finally n upto (next_round v)
        some (((s.ip + 1) ∷ r.0), r.1))

  -- A finally block ends where the return was put off.
  throw_system-resume :
      {h : ErrHandler} {hs : List ErrHandler} (w : Vm V E)
      → w.current.error ≡ none
      → w.current.handlers ≡ h ∷ hs
      → 0 < h.return_to
      → throw_system w ≡ some (go_to h.sp (h.return_to - 1) (with_handlers hs none w))
  unfolding throw_system
  throw_system-resume {h} w e q positive =
      let test : ltb 0 h.return_to ≡ true = ground arith in rw (e, q, test) refl

  -- A round of `run_finally` that runs the block at `p`.
  run_finally-round :
      (neutral : Neutral) (n upto : ℕ) (vm : Vm V E) {h : ErrHandler} {hs : List ErrHandler}
      → 0 < vm.ip
      → find_finally upto vm.current.handlers ≡ (h.finally, h ∷ hs)
      → 0 < h.finally
      → (w : Vm V E) × (run_finally (suc n) upto vm
          ≡ (do r ← run_finally n upto w; some ((h.finally ∷ r.0), r.1)))
        × (w.ip ≡ vm.ip)
        × (w.height ≡ vm.height)
        × (w.current.handlers ≡ hs)
  unfolding Neutral run_finally finalizer go_to setup_finally
  run_finally-round neutral n upto vm {h} {hs} positive found finally =
      let s = start vm.ip vm.height h hs vm in
      let w = body h.finally s in
      let back = go_to vm.height (vm.ip - 1) (with_handlers hs none w) in
      let test : (h.finally == 0) ≡ false = ground arith in
      let same : h.finally - 1 + 1 ≡ h.finally = omega arith in
      let again =
        throw_system-resume w ((neutral h.finally s refl).0) ((neutral h.finally s refl).1)
          positive in
      (next_round back, rw (found, test, same, again) refl, omega arith, refl, refl)
    where
      -- The machine behind `OpSetupFinally`.
      start : ℕ → ℕ → ErrHandler → List ErrHandler → Vm V E → Vm V E
      start position height h hs vm = record {
        ip = h.finally - 1;
        height = vm.height;
        stack = vm.stack;
        current = record {
          handlers = without_targets (put_off position height h) ∷ hs;
          error = none;
        };
        callers = vm.callers;
      }

  -- Above an `OpFinalizer`, where the bodies of finally blocks neither fail nor return and leave the
  -- handlers of the frame as they were, which a body with a try statement of its own does not, the machine
  -- runs every pending finally block once, the innermost first, and then goes on behind it with the
  -- height of the stack as before and the handlers of the first `upto` try statements.
  pub run_finally-pending :
      (neutral : Neutral) (n upto : ℕ) (vm : Vm V E)
      → 0 < vm.ip
      → length vm.current.handlers < n
      → (w : Vm V E) × (run_finally n upto vm ≡ some (pending upto vm.current.handlers, w))
        × (w.ip ≡ vm.ip + 1)
        × (w.height ≡ vm.height)
        × (w.current.handlers ≡ outer_handlers upto vm.current.handlers)
  unfolding run_finally finalizer
  run_finally-pending neutral zero upto vm positive enough = ground arith
  run_finally-pending neutral (suc n) upto vm positive enough =
      elim (find_finally-cases upto vm.current.handlers) [
        | inl (p, q) ↦ (
          finished (outer_handlers upto vm.current.handlers) vm,
          rw (q, p) refl,
          refl,
          refl,
          refl,
        )
        | inr (h, hs, q, finally, p, o, shorter) ↦
            let (v, run, ip, height, left) =
              run_finally-round neutral n upto vm positive q finally in
            let (w, again, ip', height', left') =
              run_finally-pending neutral n upto v (omega arith) (rw left (omega arith)) in
            (
              w,
              run ∙ rw (again, p, left) refl,
              omega arith,
              height' ∙ height,
              left' ∙ ap (outer_handlers upto) left ∙ sym o,
            )
      ]
    where
      finished : List ErrHandler → Vm V E → Vm V E
      finished hs vm = record {
        ip = vm.ip + 1;
        height = vm.height;
        stack = vm.stack;
        current = record { handlers = hs; error = vm.current.error };
        callers = vm.callers;
      }
