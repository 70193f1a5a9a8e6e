-- ===== src/Snake/Tests.antt =====
-- A key pressed in the game of snake.cpp.
use venom_os.Base.{true}
use venom_os.Snake.{Snake, first_body, right}

abbrev game : Snake
game = record {
  body = first_body;
  food = record { x = 7; y = 7 };
  count = 3;
  tick_count = 0;
  random_state = 1;
  direction = right;
  requested_direction = right;
  running = true;
}
