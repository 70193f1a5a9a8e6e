-- ===== src/Vga.antt =====
-- kernel/vga.cpp: the text screen of 25 rows and 80 columns. `buffer` is the video memory by the
-- cell. The hardware cursor is port I/O and not part of the model.
pub mod Screen
mod Tests
use venom_os.Base.{
  ℕ, zero, suc, ◌+◌, ◌-◌, ◌*◌, ◌%◌, ◌^◌, ◌==◌, if◌then◌else◌, Bool, true, false, ◌||◌, ltb, leb,
  List, [], ◌∷◌,
}
use venom_os.Base.Memory.{update, u8}

abbrev pub vga_width : ℕ
vga_width = 80

abbrev pub vga_height : ℕ
vga_height = 25

-- `vga_buffer`, the cursor and the color.
pub record Vga : Type 0 where
  pub buffer : ℕ → ℕ
  pub cursor_row : ℕ
  pub cursor_col : ℕ
  pub current_color : ℕ

-- A color is its number, below 16.
abbrev pub make_color : ℕ → ℕ → ℕ
make_color fg bg = u8 (fg + bg * 16)

abbrev pub make_entry : ℕ → ℕ → ℕ
make_entry c color = u8 c + color * 256

-- The two loops of `scroll`, over the cells in their order.
pub scroll_from : ℕ → ℕ → (ℕ → ℕ) → ℕ → ℕ
scroll_from zero i buffer = buffer
scroll_from (suc left) i buffer =
    scroll_from left (i + 1) (update buffer i (buffer (i + vga_width)))

pub fill_from : ℕ → ℕ → ℕ → (ℕ → ℕ) → ℕ → ℕ
fill_from zero i entry buffer = buffer
fill_from (suc left) i entry buffer = fill_from left (i + 1) entry (update buffer i entry)

abbrev pub last_row : ℕ
last_row = (vga_height - 1) * vga_width

pub scroll : Vga → Vga
scroll v = record v {
  buffer =
      fill_from vga_width last_row (make_entry b' ' v.current_color)
        (scroll_from last_row 0 v.buffer);
  cursor_row = vga_height - 1;
  cursor_col = 0;
}

pub init : Vga → Vga
init v = record v { cursor_row = 0; cursor_col = 0; current_color = make_color 7 0 }

pub set_color : ℕ → ℕ → Vga → Vga
set_color fg bg v = record v { current_color = make_color fg bg }

pub clear : ℕ → ℕ → Vga → Vga
clear fg bg v =
    let color = make_color fg bg in
    record {
      buffer = fill_from (vga_height * vga_width) 0 (make_entry b' ' color) v.buffer;
      cursor_row = 0;
      cursor_col = 0;
      current_color = color;
    }

abbrev pub cell : Vga → ℕ
cell v = v.cursor_row * vga_width + v.cursor_col

-- `if (cursor_row >= VGA_HEIGHT) scroll();`
abbrev pub scroll_if : Vga → Vga
scroll_if v = if leb vga_height v.cursor_row then scroll v else v

abbrev pub erase : Vga → Vga
erase v = record v { buffer = update v.buffer (cell v) (make_entry b' ' v.current_color) }

-- A backspace goes back a cell, but not from the first one.
abbrev pub backspace : Vga → Vga
backspace v =
    if v.cursor_col == 0
    then (if v.cursor_row == 0
        then v
        else scroll_if
            (erase (record v { cursor_row = v.cursor_row - 1; cursor_col = vga_width - 1 })))
    else scroll_if (erase (record v { cursor_col = v.cursor_col - 1 }))

abbrev pub advance : Vga → Vga
advance v =
    if leb vga_width (v.cursor_col + 1)
    then (record v { cursor_col = 0; cursor_row = v.cursor_row + 1 })
    else (record v { cursor_col = v.cursor_col + 1 })

pub put_char : ℕ → Vga → Vga
put_char c v =
    if c == 10
    then scroll_if (record v { cursor_col = 0; cursor_row = v.cursor_row + 1 })
    else (if c == 8
        then backspace v
        else scroll_if (
            advance
              (record v { buffer = update v.buffer (cell v) (make_entry c v.current_color) })))

-- A string is its characters before the terminator.
pub print : List ℕ → Vga → Vga
print [] v = v
print (c ∷ s) v = print s (put_char c v)

pub print_colored : List ℕ → ℕ → ℕ → Vga → Vga
print_colored s fg bg v = record (print s (set_color fg bg v)) { current_color = v.current_color }

pub put_char_at : ℕ → ℕ → ℕ → ℕ → ℕ → Vga → Vga
put_char_at row col c fg bg v = if leb vga_height row || leb vga_width col then v else (record v {
  buffer = update v.buffer (row * vga_width + col) (make_entry c (make_color fg bg));
})
