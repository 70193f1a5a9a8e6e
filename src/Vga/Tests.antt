-- ===== src/Vga/Tests.antt =====
-- The last cell of the screen of vga.cpp.
use venom_os.Base.{arith, [], ◌∷◌}
use venom_os.Vga.{Vga, print}
use venom_os.Vga.Screen.{OnScreen, Stays, print-Stays}

abbrev last_cell : Vga
last_cell = record { buffer = λ i. 0; cursor_row = 24; cursor_col = 79; current_color = 7 }

last_cell-OnScreen : OnScreen last_cell
last_cell-OnScreen = record { row = omega arith; col = omega arith }

print-Stays_example : Stays last_cell (print (b'a' ∷ 10 ∷ 8 ∷ []) last_cell)
print-Stays_example = print-Stays (b'a' ∷ 10 ∷ 8 ∷ []) last_cell last_cell-OnScreen
