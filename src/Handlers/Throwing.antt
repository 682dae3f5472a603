-- ===== src/Handlers/Throwing.antt =====
-- Where an error goes: `throw` against a search of the handlers of all frames.
use gad.Prelude.{
  ℕ, ◌+◌, ◌-◌, ◌<◌, ◌≡◌, refl, ap, ◌∙◌, Bool, true, false, Option, none, some, List, [], ◌∷◌, ltb,
  leb, ◌==◌, if◌then◌else◌, arith, Bool-cases, inl, inr,
}
use gad.Handlers.{
  ErrHandler, ErrHandlers, Vm, go_to, target_of, caught_by, throw_callers, throw_current, throw,
  setup_catch, without_catch, push,
}

-- The handlers of a frame from its innermost one on that has a block left.
unfoldable pub live : List ErrHandler → List ErrHandler
live [] = []
live (h ∷ hs) = let rest = live hs in if ltb 0 (target_of h) then h ∷ hs else rest

-- A frame without handlers, or whose innermost handler has a block left.
unfoldable pub is_live : List ErrHandler → Bool
is_live [] = true
is_live (h ∷ hs) = ltb 0 (target_of h)

-- The innermost handler of every frame has a block left.
unfoldable pub AllLive : {E : Type 0} → List (ErrHandlers E) → Type 0
AllLive [] = true ≡ true
AllLive (f ∷ fs) = (is_live f.handlers ≡ true) × AllLive fs

module _ {V E : Type 0} where
  -- The innermost of the handlers takes the error.
  unfoldable pub take_in :
      E → List (ErrHandlers E) → Vm V E → List ErrHandler → Option (Vm V E) → Option (Vm V E)
  take_in e fs vm [] otherwise = otherwise
  take_in e fs vm (h ∷ hs) otherwise = some (caught_by h hs e fs vm)

  -- The nearest of the frames that has a handler with a block left takes the error.
  unfoldable pub nearest : E → List (ErrHandlers E) → Vm V E → Option (Vm V E)
  nearest e [] vm = none
  nearest e (f ∷ fs) vm = let rest = nearest e fs vm in take_in e fs vm (live f.handlers) rest

  throw_callers-frame :
      (e : E) (f : ErrHandlers E) (fs : List (ErrHandlers E)) (vm : Vm V E) (hs : List ErrHandler)
      → f.handlers ≡ hs
      → is_live hs ≡ true
      → throw_callers e (f ∷ fs) vm ≡ take_in e fs vm (live hs) (throw_callers e fs vm)
  unfolding throw_callers take_in live is_live
  throw_callers-frame e f fs vm [] p first = rw p refl
  throw_callers-frame e f fs vm (h ∷ hs) p first = rw (p, first) refl

  throw_callers-nearest :
      (e : E) (fs : List (ErrHandlers E)) (vm : Vm V E)
      → AllLive fs
      → throw_callers e fs vm ≡ nearest e fs vm
  unfolding throw_callers nearest AllLive
  throw_callers-nearest e [] vm clear = refl
  throw_callers-nearest e (f ∷ fs) vm (first, clear) =
      throw_callers-frame e f fs vm f.handlers refl first
      ∙ ap (take_in e fs vm (live f.handlers)) (throw_callers-nearest e fs vm clear)

  throw_current-live :
      (e : E) (hs : List ErrHandler) (vm : Vm V E)
      → throw_current e hs vm ≡ take_in e vm.callers vm (live hs) (throw_callers e vm.callers vm)
  unfolding throw_current take_in live
  throw_current-live e [] vm = refl
  throw_current-live e (h ∷ hs) vm = elim (Bool-cases (ltb 0 (target_of h))) [
    | inl t ↦ rw t refl
    | inr t ↦ rw t (throw_current-live e hs vm)
  ]

  -- Where the innermost handler of every calling frame has a block left, `throw` has the result of the
  -- search over all frames: the nearest frame that has a handler with a block left goes on, in the
  -- innermost such handler, without the handlers inside it; where there is none, the error is not
  -- handled.
  pub throw-nearest :
      (e : E) (vm : Vm V E)
      → AllLive vm.callers
      → throw e vm ≡ nearest e (vm.current ∷ vm.callers) vm
  unfolding throw nearest
  throw-nearest e vm clear =
      throw_current-live e vm.current.handlers vm
      ∙ ap (take_in e vm.callers vm (live vm.current.handlers))
          (throw_callers-nearest e vm.callers vm clear)

  -- An error in a frame whose innermost handler has a catch block goes to that block; `OpSetupCatch`
  -- then has the error on the stack at the height where the try statement began, the cells below are as
  -- before, and the frame keeps the finally block and no error.
  pub throw-setup_catch :
      (e : E) (nil : V) (value_of : E → V) (vm : Vm V E) (h : ErrHandler) (hs : List ErrHandler)
      → vm.current.handlers ≡ h ∷ hs
      → 0 < h.catch
      → (i : ℕ) → i < h.sp
      → (w : Vm V E) × (throw e vm ≡ some w)
        × (w.ip ≡ h.catch - 1)
        × ((setup_catch nil value_of w).height ≡ h.sp + 1)
        × ((setup_catch nil value_of w).stack h.sp ≡ some (value_of e))
        × ((setup_catch nil value_of w).stack i ≡ vm.stack i)
        × ((setup_catch nil value_of w).current
            ≡ record { handlers = without_catch h ∷ hs; error = none })
  unfolding throw throw_current caught_by target_of go_to setup_catch push
  throw-setup_catch e nil value_of vm h hs p positive i below =
      let t : ltb 0 h.catch ≡ true = ground arith in
      let top : (h.sp == h.sp) ≡ true = ground arith in
      let other : (i == h.sp) ≡ false = ground arith in
      let kept : leb h.sp i ≡ false = ground arith in
      (
        caught_by h hs e vm.callers vm,
        rw (p, t, t) refl,
        rw t refl,
        refl,
        rw top refl,
        rw (other, kept) (if-same (leb h.sp vm.height)),
        refl,
      )
    where
      if-same : {A : Type 0} {a : A} (b : Bool) → (if b then a else a) ≡ a
      if-same true = refl
      if-same false = refl
