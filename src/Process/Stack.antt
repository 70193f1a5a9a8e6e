-- ===== src/Process/Stack.antt =====
-- Where the first contents of the stack lie.
use venom_os.Base.{
  ℕ, ◌+◌, ◌-◌, ◌==◌, if◌then◌else◌, ◌*◌, ◌%◌, ◌≤◌, ◌<◌, ◌≡◌, arith, [], ◌∷◌, length, none, some,
  Option-cases, inl, inr, subst, ap, refl, ◌∙◌,
}
use venom_os.Base.Copy.{copy_bytes}
use venom_os.Process.{
  Arguments, Image, stack_virt, stack_top, max_arg_bytes, strings_base, pointer_bytes, initial_sp,
  count_strings, count_all, put_word, put_strings, lay_out, build_image, build_initial_stack,
}
use venom_os.Process.Words.{
  string_bytes, string_count, put_strings-cursors, put_word-below, put_strings-below,
  put_word-cursors, put_word-small,
}

-- What `count_strings` accepts has no null pointer, and its count is exact and small.
count_strings_sound :
    (args : Arguments) (total n : ℕ)
    → total ≤ max_arg_bytes
    → count_strings args total ≡ some n
    → (n ≡ total + string_bytes args) × (string_count args ≡ length args) × (n ≤ max_arg_bytes)
unfolding count_strings string_bytes string_count
count_strings_sound [] total n h e = ground arith
count_strings_sound (none ∷ args) total n h e = cc
count_strings_sound (some s ∷ args) total n h e =
    ground (arith, count_strings_sound args (total + length s + 1) n)

-- The stack pointer and the image that end up in the new stack.
pub record IsLaidOut (argv envp : Arguments) (sp : ℕ) (m : Image) : Type 0 where
  pub aligned : sp % 16 ≡ 0
  pub in_stack : (stack_virt ≤ sp) × (sp < stack_top)
  pub words_end : m.word_cursor ≡ sp + pointer_bytes (length argv) (length envp)
  pub strings_end : m.str_cursor ≡ stack_top
  pub apart : m.word_cursor + string_bytes argv + string_bytes envp ≤ stack_top

count_all_sound :
    (argv envp : Arguments) (n : ℕ)
    → count_all argv envp ≡ some n
    → (n ≡ string_bytes argv + string_bytes envp)
      × (string_count argv ≡ length argv)
      × (string_count envp ≡ length envp)
unfolding count_all
count_all_sound argv envp n e = elim (Option-cases (count_strings argv 0)) [
  | inl bad ↦ absurd (ground (arith, bad))
  | inr (m, good) ↦
      let first = count_strings_sound argv 0 m (omega arith) good in
      ground (arith, good, first, count_strings_sound envp m n)
]

lay_out-cursors :
    (n : ℕ) (argv envp : Arguments) (window : ℕ → ℕ) (sp : ℕ)
    → let m = lay_out n argv envp window sp in
      (m.str_cursor ≡ strings_base n + string_bytes argv + string_bytes envp)
      × (m.word_cursor ≡ sp + 8 * (5 + string_count argv + string_count envp))
unfolding lay_out put_word
lay_out-cursors n argv envp window sp =
    omega (arith, put_strings-cursors argv _, put_strings-cursors envp _)

lay_out-IsLaidOut :
    (n : ℕ) (argv envp : Arguments) (window : ℕ → ℕ)
    → count_all argv envp ≡ some n
    → n + pointer_bytes (length argv) (length envp) + 16 ≤ max_arg_bytes
    → let sp = initial_sp n (length argv) (length envp) in
      IsLaidOut argv envp sp (lay_out n argv envp window sp)
lay_out-IsLaidOut n argv envp window e fits =
    let counted = count_all_sound argv envp n e in
    let ends = lay_out-cursors n argv envp window (initial_sp n (length argv) (length envp)) in
    omega (arith, counted, ends)

-- The first word stays when all others are stored.
lay_out-argc :
    (n : ℕ) (argv envp : Arguments) (window : ℕ → ℕ) (sp b : ℕ)
    → length argv < 256
    → stack_virt ≤ sp
    → sp + 8 ≤ strings_base n
    → b < 8
    → (lay_out n argv envp window sp).window (sp - stack_virt + b)
      ≡ (if b == 0 then length argv else 0)
unfolding lay_out
lay_out-argc n argv envp window sp b few low apart lt =
    let start : Image = record {
      window = copy_bytes (stack_top - sp) (sp - stack_virt) 0 (λ i. 0) window;
      str_cursor = strings_base n;
      word_cursor = sp;
    } in
    let j = sp - stack_virt + b in
    let m₁ = put_word (length argv) start in
    let m₂ = put_strings argv m₁ in
    let m₃ = put_word 0 m₂ in
    let m₄ = put_strings envp m₃ in
    let m₅ = put_word 0 m₄ in
    let c₁ = put_word-cursors (length argv) start in
    let c₂ = put_strings-cursors argv m₁ in
    let c₃ = put_word-cursors 0 m₂ in
    let c₄ = put_strings-cursors envp m₃ in
    let c₅ = put_word-cursors 0 m₄ in
    let c₆ = put_word-cursors 0 m₅ in
    put_word-below 0 (put_word 0 m₅) j (omega arith)
    ∙ put_word-below 0 m₅ j (omega arith)
    ∙ put_word-below 0 m₄ j (omega arith)
    ∙ put_strings-below envp m₃ j (omega arith) (omega arith)
    ∙ put_word-below 0 m₂ j (omega arith)
    ∙ put_strings-below argv m₁ j (omega arith) (omega arith)
    ∙ put_word-small (length argv) start b few lt

-- What a stack that is built consists of: the strings are counted, the pointer and the window are those
-- of the image that the code lays out for this count, and the first word is the number of arguments.
pub record IsBuilt (window : ℕ → ℕ) (argv envp : Arguments) (r : ℕ × (ℕ → ℕ)) : Type 0 where
  pub pointer : r.0 ≡ initial_sp (string_bytes argv + string_bytes envp) (length argv) (length envp)
  pub contents : r.1 ≡ (lay_out (string_bytes argv + string_bytes envp) argv envp window r.0).window
  pub laid_out :
      IsLaidOut argv envp r.0 (lay_out (string_bytes argv + string_bytes envp) argv envp window r.0)
  pub argc : (b : ℕ) → b < 8 → r.1 (r.0 - stack_virt + b) ≡ (if b == 0 then length argv else 0)

-- A stack that is built is the one that is laid out for the bytes of its strings. Its pointer is 16-byte
-- aligned and inside the stack. When the laying out is done, the words that it has stored end as far above
-- the pointer as their number says, the strings that it has stored end at the top, and the two do
-- not overlap. The word at the pointer is the number of arguments.
pub build_initial_stack-IsBuilt :
    (window : ℕ → ℕ) (argv envp : Arguments) (r : ℕ × (ℕ → ℕ))
    → build_initial_stack window argv envp ≡ some r
    → IsBuilt window argv envp r
unfolding build_initial_stack build_image
build_initial_stack-IsBuilt window argv envp r e = elim (Option-cases (count_all argv envp)) [
  | inl bad ↦ absurd (ground (arith, bad))
  | inr (n, good) ↦
      let n' = string_bytes argv + string_bytes envp in
      let exact : n ≡ n' = (count_all_sound argv envp n good).0 in
      let good' : count_all argv envp ≡ some n' = good ∙ ap some exact in
      let sp = initial_sp n' (length argv) (length envp) in
      let m = lay_out n' argv envp window sp in
      let same : ◌≡◌ {A = ℕ × (ℕ → ℕ)} (sp, m.window) r = ground (arith, good') in
      subst (IsBuilt window argv envp) same (record {
        pointer = refl;
        contents = refl;
        laid_out = lay_out-IsLaidOut n' argv envp window good' (ground (arith, good'));
        argc = λ b lt.
            lay_out-argc n' argv envp window sp b (ground (arith, good')) (ground (arith, good'))
              (ground (arith, good')) lt;
      })
]
