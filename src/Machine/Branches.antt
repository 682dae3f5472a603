-- ===== src/Machine/Branches.antt =====
-- The two branches of a condition, run.
use gad.Prelude.{
  String, ℕ, ◌+◌, ◌<◌, ◌≤◌, ◌≡◌, refl, sym, true, false, List, [], ◌∷◌, ◌++◌, length, arith,
}
use gad.Prelude.Result.{Result, ok, err}
use gad.Opcode.{Opcode, op_jump}
use gad.Instruction.Stream.{Code}
use gad.Machine.{Objects, Frame, execute}
use gad.Machine.Layout.{size, branch_code}
use gad.Machine.Emission.{size-append}
use gad.Machine.Fetch.{Stands, fetch-word}
use gad.Machine.Run.{
  Runs, stays, goes, Runs-trans, frame, arrive, turned, Continues, Stands-left, Stands-right,
}
use gad.Machine.Jumps.{HasWord, size-HasWord, jump-HasWord, Jumps, jump_turn, enter, end_at}

module _ {ℓ} {V : Type ℓ} (o : Objects V) (constants locals : List V) (insts : List ℕ) where
  -- An unconditional jump with the result of a branch on the stack.
  jump_on :
      (p : Code) (target : ℕ) (s : List V) (f : Frame V) (r : Result String V)
      → Stands insts p ((op_jump, target ∷ []) ∷ [])
      → target < 65536
      → length locals + length s + 1 ≤ 2048
      → Runs o constants insts f (arrive locals (size p) s r)
      → Runs o constants insts f (arrive locals target s r)
  jump_on p target s f (err e) st b room h = h
  jump_on p target s f (ok v) st b room h =
      let (run, word_is) =
        fetch-word o constants insts p op_jump target st (jump-HasWord target) b in
      let g = frame locals (size p) (v ∷ s) in
      Runs-trans o constants insts h (
        goes {f' = frame locals target (v ∷ s)}
          (turned o constants locals insts op_jump g (frame locals target (v ∷ s)) (run g refl)
            (unfold execute in ground (arith, word_is)) (omega arith))
          stays)

  module _ (op : Opcode) (word : HasWord op) (yes no : ℕ → Code) (v : V) (r r' : Result String V)
      (after there : List V → List V) (dy dn : ℕ)
      (cy : Continues o constants locals insts dy yes [] r)
      (cn : Continues o constants locals insts dn no [] r') (p : Code) (s : List V)
      (h : Stands insts p (branch_code op (size p) yes no))
      (b : size p + size (branch_code op (size p) yes no) < 65536) where
    abbrev on_true : Code
    on_true = yes (size p + 3)

    abbrev middle : ℕ
    middle = size p + 3 + size on_true + 3

    abbrev on_false : Code
    on_false = no middle

    abbrev first : Code
    first = (op, middle ∷ []) ∷ []

    abbrev skip : Code
    skip = (op_jump, (middle + size on_false) ∷ []) ∷ []

    stands : Stands insts p (first ++ (on_true ++ (skip ++ on_false)))
    unfolding branch_code
    stands = h

    sizes :
        (size (first ++ (on_true ++ (skip ++ on_false))) ≡ 3 + size on_true + 3 + size on_false)
        × (size (p ++ first) ≡ size p + 3)
        × (size ((p ++ first) ++ on_true) ≡ size p + 3 + size on_true)
        × (size (((p ++ first) ++ on_true) ++ skip) ≡ middle)
    sizes =
        let f3 = size-HasWord op middle word in
        let s3 = size-HasWord op_jump (middle + size on_false) jump-HasWord in
        let a = size-append first (on_true ++ (skip ++ on_false)) in
        let a' = size-append on_true (skip ++ on_false) in
        let a'' = size-append skip on_false in
        let c = size-append p first in
        let c' = size-append (p ++ first) on_true in
        let c'' = size-append ((p ++ first) ++ on_true) skip in
        (
          omega (arith, f3, s3, a, a', a''),
          omega (arith, f3, c),
          omega (arith, f3, c, c'),
          omega (arith, f3, s3, c, c', c''),
        )

    end_bound : middle + size on_false < 65536
    unfolding branch_code
    end_bound = omega (arith, b, sizes.0)

    end_is : middle + size on_false ≡ size p + size (branch_code op (size p) yes no)
    unfolding branch_code
    end_is = omega (arith, sizes.0)

    after_first : Stands insts (p ++ first) (on_true ++ (skip ++ on_false))
    after_first =
        Stands-right o constants locals insts p first (on_true ++ (skip ++ on_false)) stands

    after_true : Stands insts ((p ++ first) ++ on_true) (skip ++ on_false)
    after_true =
        Stands-right o constants locals insts (p ++ first) on_true (skip ++ on_false) after_first

    pub run-true :
        Jumps o constants locals insts op v true after there
        → 1 ≤ dy
        → length locals + length (after s) + dy ≤ 2048
        → Runs o constants insts
            (frame locals (size p) (v ∷ s))
            (arrive locals (size p + size (branch_code op (size p) yes no)) (after s) r)
    run-true turn some_room room =
        let inside =
          enter o constants locals insts dy yes [] r (p ++ first) (size p + 3) (after s) cy sizes.1
            (Stands-left o constants locals insts (p ++ first) on_true (skip ++ on_false)
              after_first)
            (omega (arith, end_bound)) room in
        goes
          (jump_turn o constants locals insts op word p middle v true after there s turn
            (Stands-left o constants locals insts p first (on_true ++ (skip ++ on_false)) stands)
            (omega (arith, end_bound)) (omega arith))
          (end_at o constants locals insts _ (middle + size on_false) _ (after s) r end_is (
            jump_on ((p ++ first) ++ on_true) (middle + size on_false) (after s) _ r
              (Stands-left o constants locals insts ((p ++ first) ++ on_true) skip on_false
                after_true)
              end_bound (omega arith)
              (end_at o constants locals insts _ (size p + 3 + size on_true) _ (after s) r
                (sym sizes.2) inside)))

    pub run-false :
        Jumps o constants locals insts op v false after there
        → length locals + length (there s) + dn ≤ 2048
        → Runs o constants insts
            (frame locals (size p) (v ∷ s))
            (arrive locals (size p + size (branch_code op (size p) yes no)) (there s) r')
    run-false turn room =
        goes
          (jump_turn o constants locals insts op word p middle v false after there s turn
            (Stands-left o constants locals insts p first (on_true ++ (skip ++ on_false)) stands)
            (omega (arith, end_bound)) (omega arith))
          (end_at o constants locals insts _ (middle + size on_false) _ (there s) r' end_is (
            enter o constants locals insts dn no [] r' (((p ++ first) ++ on_true) ++ skip) middle
              (there s) cn sizes.3
              (Stands-right o constants locals insts ((p ++ first) ++ on_true) skip on_false
                after_true)
              end_bound room))
