-- ===== src/Process/Words.antt =====
-- What the words and the strings that `build_initial_stack` of process.cpp stores change.
use venom_os.Base.{
  ℕ, zero, suc, ◌+◌, ◌-◌, ◌/◌, ◌==◌, if◌then◌else◌, ◌*◌, ◌<◌, ◌≡◌, arith, List, [], ◌∷◌, length,
  none, some, subst, refl, ◌∙◌,
}
use venom_os.Base.Memory.{update, u8}
use venom_os.Process.{put_bytes, Arguments, Image, stack_virt, put_word, put_string, put_strings}

-- The bytes of the strings with their terminators, and the strings that there are.
unfoldable pub string_bytes : Arguments → ℕ
string_bytes [] = 0
string_bytes (none ∷ args) = string_bytes args
string_bytes (some s ∷ args) = length s + 1 + string_bytes args

unfoldable pub string_count : Arguments → ℕ
string_count [] = 0
string_count (none ∷ args) = string_count args
string_count (some s ∷ args) = 1 + string_count args

pub put_string-cursors :
    (s : List ℕ) (m : Image)
    → ((put_string s m).str_cursor ≡ m.str_cursor + length s + 1)
      × ((put_string s m).word_cursor ≡ m.word_cursor)
unfolding put_string
put_string-cursors [] m = omega arith
put_string-cursors (c ∷ s) m = omega (arith, put_string-cursors s _)

pub put_strings-cursors :
    (args : Arguments) (m : Image)
    → ((put_strings args m).str_cursor ≡ m.str_cursor + string_bytes args)
      × ((put_strings args m).word_cursor ≡ m.word_cursor + 8 * string_count args)
unfolding put_strings put_word string_bytes string_count
put_strings-cursors [] m = omega arith
put_strings-cursors (none ∷ args) m = put_strings-cursors args m
put_strings-cursors (some s ∷ args) m = omega (
  arith,
  put_strings-cursors args (put_word m.str_cursor (put_string s m)),
  put_string-cursors s m,
)

put_bytes-below : (n at value : ℕ) (w : ℕ → ℕ) (j : ℕ) → j < at → put_bytes n at value w j ≡ w j
unfolding put_bytes
put_bytes-below zero at value w j h = refl
put_bytes-below (suc n) at value w j h =
    put_bytes-below n (at + 1) (value / 256) (update w at (u8 value)) j (omega arith)
    ∙ (ground arith)

put_bytes-zero : (n at : ℕ) (w : ℕ → ℕ) (b : ℕ) → b < n → put_bytes n at 0 w (at + b) ≡ 0
unfolding put_bytes
put_bytes-zero zero at w b h = absurd (omega arith)
put_bytes-zero (suc n) at w zero h =
    put_bytes-below n (at + 1) (0 / 256) (update w at (u8 0)) (at + 0) (omega arith)
    ∙ (ground arith)
put_bytes-zero (suc n) at w (suc b) h =
    let same : at + 1 + b ≡ at + suc b = omega arith in
    subst (λ i. put_bytes n (at + 1) (0 / 256) (update w at (u8 0)) i ≡ 0) same
      (subst (λ v. put_bytes n (at + 1) v (update w at (u8 0)) (at + 1 + b) ≡ 0) (omega arith)
        (put_bytes-zero n (at + 1) (update w at (u8 0)) b (omega arith)))

-- A word of one byte.
put_bytes-small :
    (at value : ℕ) (w : ℕ → ℕ) (b : ℕ)
    → value < 256
    → b < 8
    → put_bytes 8 at value w (at + b) ≡ (if b == 0 then value else 0)
unfolding put_bytes
put_bytes-small at value w zero small h =
    put_bytes-below 7 (at + 1) (value / 256) (update w at (u8 value)) (at + 0) (omega arith)
    ∙ (ground arith)
put_bytes-small at value w (suc b) small h =
    let same : at + 1 + b ≡ at + suc b = omega arith in
    let none_left : 0 ≡ value / 256 = omega arith in
    subst (λ i. put_bytes 7 (at + 1) (value / 256) (update w at (u8 value)) i ≡ 0) same
      (subst (λ v. put_bytes 7 (at + 1) v (update w at (u8 value)) (at + 1 + b) ≡ 0) none_left
        (put_bytes-zero 7 (at + 1) (update w at (u8 value)) b (omega arith)))
    ∙ (ground arith)

pub put_word-below :
    (value : ℕ) (m : Image) (j : ℕ)
    → stack_virt + j < m.word_cursor
    → (put_word value m).window j ≡ m.window j
unfolding put_word
put_word-below value m j h =
    put_bytes-below 8 (m.word_cursor - stack_virt) value m.window j (omega arith)

put_string-below :
    (s : List ℕ) (m : Image) (j : ℕ)
    → stack_virt + j < m.str_cursor
    → (put_string s m).window j ≡ m.window j
unfolding put_string
put_string-below [] m j h = ground arith
put_string-below (c ∷ s) m j h =
    put_string-below s
      (record m {
        window = update m.window (m.str_cursor - stack_virt) (u8 c);
        str_cursor = m.str_cursor + 1;
      })
      j (omega arith)
    ∙ (ground arith)

pub put_word-cursors :
    (value : ℕ) (m : Image)
    → ((put_word value m).str_cursor ≡ m.str_cursor)
      × ((put_word value m).word_cursor ≡ m.word_cursor + 8)
unfolding put_word
put_word-cursors value m = (refl, refl)

pub put_strings-below :
    (args : Arguments) (m : Image) (j : ℕ)
    → stack_virt + j < m.str_cursor
    → stack_virt + j < m.word_cursor
    → (put_strings args m).window j ≡ m.window j
unfolding put_strings
put_strings-below [] m j h k = refl
put_strings-below (none ∷ args) m j h k = put_strings-below args m j h k
put_strings-below (some s ∷ args) m j h k =
    let m₁ = put_string s m in
    let m₂ = put_word m.str_cursor m₁ in
    let cursors = put_string-cursors s m in
    let ends = put_word-cursors m.str_cursor m₁ in
    put_strings-below args m₂ j (omega arith) (omega arith)
    ∙ put_word-below m.str_cursor m₁ j (omega arith)
    ∙ put_string-below s m j h

pub put_word-small :
    (value : ℕ) (m : Image) (b : ℕ)
    → value < 256
    → b < 8
    → (put_word value m).window (m.word_cursor - stack_virt + b) ≡ (if b == 0 then value else 0)
unfolding put_word
put_word-small value m b small lt =
    put_bytes-small (m.word_cursor - stack_virt) value m.window b small lt
