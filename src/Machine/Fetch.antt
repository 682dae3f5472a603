-- ===== src/Machine/Fetch.antt =====
-- What a turn of the loop reads where an instruction stands.
use gad.Prelude.{
  ℕ, ◌+◌, ◌<◌, ◌≡◌, ap, ◌∙◌, some, List, [], ◌∷◌, ◌++◌, get_elem?, get_elem?-append_right,
  get_elem?-length, arith,
}
use gad.Prelude.Bytes.{byte, high_byte, word, word-high_byte}
use gad.Opcode.{Opcode, code, of_code-code}
use gad.Instruction.Stream.{Code, encode, instruction_bytes}
use gad.Emitter.Patch.{encode-append}
use gad.Machine.{Objects, Frame, word_at, execute, within, step}
use gad.Machine.Layout.{size}

-- The code `x` stands in the instructions behind `p`.
abbrev pub Stands : List ℕ → Code → Code → Type 0
Stands insts p x = (q : Code) × (insts ≡ encode (p ++ (x ++ q)))

bytes_at :
    (insts : List ℕ) (p : Code) (op : Opcode) (args bytes : List ℕ)
    → Stands insts p ((op, args) ∷ [])
    → instruction_bytes op args ≡ bytes
    → (rest : List ℕ) × (insts ≡ encode p ++ (bytes ++ rest))
bytes_at insts p op args bytes h e = (
  encode h.0,
  h.1
      ∙ encode-append p ((op, args) ∷ h.0)
      ∙ (unfold encode in ap (λ t. encode p ++ (t ++ encode h.0)) e),
)

module _ {ℓ} {V : Type ℓ} (o : Objects V) (constants : List V) (insts : List ℕ) (p : Code)
    (op : Opcode) where
  abbrev Executes : Type ℓ
  Executes =
      (f : Frame V)
      → f.ip ≡ size p
      → step o constants insts f ≡ within (execute o constants insts op f)

  first_byte : (rest : List ℕ) → insts ≡ encode p ++ code op ∷ rest → Executes
  unfolding step
  first_byte rest e f at =
      let b : get_elem? insts f.ip ≡ some (code op) =
        ap (get_elem? insts) at
        ∙ ap (λ t. get_elem? t (size p)) e
        ∙ get_elem?-length (encode p) rest (code op) in
      ground (arith, b, of_code-code op)

  -- An instruction without operands, with an operand of one byte, and of two.
  pub fetch-bare :
      Stands insts p ((op, []) ∷ []) → instruction_bytes op [] ≡ code op ∷ [] → Executes
  fetch-bare h e = let (rest, q) = bytes_at insts p op [] (code op ∷ []) h e in first_byte rest q

  second_byte :
      (b : ℕ) (rest : List ℕ)
      → insts ≡ encode p ++ code op ∷ b ∷ rest
      → get_elem? insts (size p + 1) ≡ some b
  second_byte b rest e =
      ap (λ t. get_elem? t (size p + 1)) e
      ∙ get_elem?-append_right (encode p) (code op ∷ b ∷ rest) 1

  pub fetch-byte :
      (a : ℕ)
      → Stands insts p ((op, a ∷ []) ∷ [])
      → instruction_bytes op (a ∷ []) ≡ code op ∷ byte a ∷ []
      → a < 256
      → Executes × (get_elem? insts (size p + 1) ≡ some a)
  fetch-byte a h e b =
      let (rest, q) = bytes_at insts p op (a ∷ []) (code op ∷ byte a ∷ []) h e in
      let small : byte a ≡ a = omega arith in
      (first_byte (byte a ∷ rest) q, second_byte (byte a) rest q ∙ ap some small)

  pub fetch-word :
      (a : ℕ)
      → Stands insts p ((op, a ∷ []) ∷ [])
      → instruction_bytes op (a ∷ []) ≡ code op ∷ high_byte a ∷ byte a ∷ []
      → a < 65536
      → Executes × (word_at insts (size p) ≡ some a)
  unfolding word_at
  fetch-word a h e b =
      let (rest, q) = bytes_at insts p op (a ∷ []) (code op ∷ high_byte a ∷ byte a ∷ []) h e in
      let third : get_elem? insts (size p + 2) ≡ some (byte a) =
        ap (λ t. get_elem? t (size p + 2)) q
        ∙ get_elem?-append_right (encode p) (code op ∷ high_byte a ∷ byte a ∷ rest) 2 in
      let small : word (high_byte a) (byte a) ≡ a = omega (arith, word-high_byte a) in
      (
        first_byte (high_byte a ∷ byte a ∷ rest) q,
        ground (arith, third, second_byte (high_byte a) (byte a ∷ rest) q, ap some small),
      )
