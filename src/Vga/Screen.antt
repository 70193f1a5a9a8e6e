-- ===== src/Vga/Screen.antt =====
-- The cursor of vga.cpp and the cells that it writes.
use venom_os.Base.{
  ℕ, zero, suc, ◌+◌, ◌-◌, ◌*◌, ◌≤◌, ◌<◌, ◌≡◌, ◌==◌, leb, List, [], ◌∷◌, refl, arith, ◌∙◌,
  Bool-cases, inl, inr,
}
use venom_os.Base.Memory.{update}
use venom_os.Vga.{
  Vga, vga_width, vga_height, scroll_from, fill_from, scroll, scroll_if, erase, backspace, advance,
  put_char, print, cell, make_entry, last_row,
}

pub record OnScreen (v : Vga) : Type 0 where
  pub row : v.cursor_row < vga_height
  pub col : v.cursor_col < vga_width

-- The cursor is on the screen, and the memory behind the screen is as it was.
pub record Stays (v w : Vga) : Type 0 where
  pub cursor : OnScreen w
  pub behind : (j : ℕ) → vga_height * vga_width ≤ j → w.buffer j ≡ v.buffer j

scroll_from_behind : (left i j : ℕ) (b : ℕ → ℕ) → i + left ≤ j → scroll_from left i b j ≡ b j
unfolding scroll_from
scroll_from_behind zero i j b h = refl
scroll_from_behind (suc left) i j b h =
    ground (arith, scroll_from_behind left (i + 1) j (update b i (b (i + vga_width))))

fill_from_behind : (left i e j : ℕ) (b : ℕ → ℕ) → i + left ≤ j → fill_from left i e b j ≡ b j
unfolding fill_from
fill_from_behind zero i e j b h = refl
fill_from_behind (suc left) i e j b h =
    ground (arith, fill_from_behind left (i + 1) e j (update b i e))

scroll-Stays : (v : Vga) → Stays v (scroll v)
unfolding scroll
scroll-Stays v = record {
  cursor = record { row = omega arith; col = omega arith };
  behind = λ j h.
      fill_from_behind vga_width last_row (make_entry b' ' v.current_color) j
        (scroll_from last_row 0 v.buffer) (omega arith)
      ∙ scroll_from_behind last_row 0 j v.buffer (omega arith);
}

scroll_if-Stays :
    (v w : Vga)
    → w.cursor_col < vga_width
    → ((j : ℕ) → vga_height * vga_width ≤ j → w.buffer j ≡ v.buffer j)
    → Stays v (scroll_if w)
scroll_if-Stays v w col behind = elim (Bool-cases (leb vga_height w.cursor_row)) [
  | inl past ↦
      let s = scroll-Stays w in
      rw past (record { cursor = s.cursor; behind = λ j h. s.behind j h ∙ behind j h })
  | inr inside ↦
      rw inside (record { cursor = record { row = ground arith; col = col }; behind = behind })
]

erase-Stays :
    (v : Vga) (row col : ℕ)
    → row < vga_height
    → col < vga_width
    → Stays v (scroll_if (erase (record v { cursor_row = row; cursor_col = col })))
erase-Stays v row col hr hc =
    scroll_if-Stays v (erase (record v { cursor_row = row; cursor_col = col })) hc
      (λ j h. ground (arith, hr, hc))

backspace-Stays : (v : Vga) → OnScreen v → Stays v (backspace v)
backspace-Stays v on = elim (Bool-cases (v.cursor_col == 0)) [
  | inr inside ↦
      rw inside (erase-Stays v v.cursor_row (v.cursor_col - 1) on.row (omega (arith, on.col)))
  | inl edge ↦ elim (Bool-cases (v.cursor_row == 0)) [
    | inl first ↦ rw (edge, first) (record { cursor = on; behind = λ j h. refl })
    | inr later ↦
        rw (edge, later)
          (erase-Stays v (v.cursor_row - 1) (vga_width - 1) (omega (arith, on.row)) (omega arith))
  ]
]

plain-Stays :
    (c : ℕ) (v : Vga)
    → OnScreen v
    → Stays v (
        scroll_if
          (advance (record v { buffer = update v.buffer (cell v) (make_entry c v.current_color) })))
plain-Stays c v on =
    scroll_if-Stays v
      (advance (record v { buffer = update v.buffer (cell v) (make_entry c v.current_color) }))
      (ground (arith, on.col)) (λ j h. ground (arith, on.row, on.col))

-- From a cursor on the screen, `put_char` leaves the cursor on the screen and writes nothing behind
-- the 2000 cells of the video memory.
pub put_char-Stays : (c : ℕ) (v : Vga) → OnScreen v → Stays v (put_char c v)
unfolding put_char
put_char-Stays c v on = elim (Bool-cases (c == 10)) [
  | inl newline ↦ rw newline (scroll_if-Stays v _ (omega arith) (λ j h. refl))
  | inr other ↦ elim (Bool-cases (c == 8)) [
    | inl back ↦ rw (other, back) (backspace-Stays v on)
    | inr plain ↦ rw (other, plain) (plain-Stays c v on)
  ]
]

-- From a cursor on the screen, printing a string leaves the cursor on the screen and writes nothing
-- behind the 2000 cells of the video memory.
pub print-Stays : (s : List ℕ) (v : Vga) → OnScreen v → Stays v (print s v)
unfolding print
print-Stays [] v on = record { cursor = on; behind = λ j h. refl }
print-Stays (c ∷ s) v on =
    let first = put_char-Stays c v on in
    let rest = print-Stays s (put_char c v) first.cursor in
    record { cursor = rest.cursor; behind = λ j h. rest.behind j h ∙ first.behind j h }
