-- ===== src/Snake.antt =====
-- kernel/snake.cpp: the game. The coordinates are natural numbers: the head lies on the board, whose
-- fields count from 1, so a step never leads below 0. Drawing is not part of the model.
pub mod Turn
mod Tests
use venom_os.Base.{
  ℕ, zero, suc, ◌+◌, ◌-◌, ◌*◌, ◌%◌, ◌^◌, ◌==◌, if◌then◌else◌, Bool, true, false, ◌&&◌, ◌||◌, ltb,
  leb, Option, none, some,
}
use venom_os.Base.Memory.{update, u32}

abbrev pub board_width : ℕ
board_width = 50

abbrev pub board_height : ℕ
board_height = 17

abbrev pub max_segments : ℕ
max_segments = 128

abbrev pub move_interval_ticks : ℕ
move_interval_ticks = 3

pub record Point : Type 0 where
  pub x : ℕ
  pub y : ℕ

pub data Direction : Type 0 where
  up down left right : Direction

-- The variables of the game; `count` is its `length`.
pub record Snake : Type 0 where
  pub body : ℕ → Point
  pub food : Point
  pub count : ℕ
  pub tick_count : ℕ
  pub random_state : ℕ
  pub direction : Direction
  pub requested_direction : Direction
  pub running : Bool

abbrev pub same_point : Point → Point → Bool
same_point p q = p.x == q.x && p.y == q.y

-- One of the first `n` segments lies at the point.
pub occupies : ℕ → (ℕ → Point) → Point → Bool
occupies zero body p = false
occupies (suc n) body p = same_point (body n) p || occupies n body p

abbrev pub next_random : ℕ → ℕ
next_random r = u32 (r * 1664525 + 1013904223)

abbrev pub place_food : Snake → Snake
place_food s =
    let r = next_random s.random_state in
    let r' = next_random r in
    record s {
      random_state = r';
      food = record { x = 1 + r % board_width; y = 1 + r' % board_height };
    }

-- `spawn_food`; `none` when a free field is not found in the rounds allowed.
pub spawn_food : ℕ → Snake → Option Snake
spawn_food zero s = none
spawn_food (suc fuel) s =
    let next = place_food s in
    elim (occupies s.count s.body next.food) [ true ↦ spawn_food fuel next | false ↦ some next ]

abbrev pub is_opposite : Direction → Direction → Bool
is_opposite up down = true
is_opposite down up = true
is_opposite left right = true
is_opposite right left = true
is_opposite _ _ = false

abbrev pub first_body : ℕ → Point
first_body i = if ltb i 3 then record { x = 25 - i; y = 9 } else record { x = 0; y = 0 }

-- The segments after the third keep what they held; none of them counts.
pub start : ℕ → Snake → Option Snake
start fuel s = spawn_food fuel (record s {
  body = λ i. if ltb i 3 then first_body i else s.body i;
  count = 3;
  tick_count = 0;
  direction = right;
  requested_direction = right;
  running = true;
})

pub stop : Snake → Snake
stop s = record s { running = false }

pub active : Snake → Bool
active s = s.running

abbrev pub request : Direction → Snake → Snake
request candidate s =
    if is_opposite s.direction candidate then s else (record s { requested_direction = candidate })

pub handle_key : ℕ → Snake → Snake
handle_key key s =
    if key == 0x11
    then request up s
    else (if key == 0x12
        then request down s
        else (if key == 0x13 then request left s else (if key == 0x14 then request right s else s)))

abbrev pub step : Direction → Point → Point
step up p = record p { y = p.y - 1 }
step down p = record p { y = p.y + 1 }
step left p = record p { x = p.x - 1 }
step right p = record p { x = p.x + 1 }

abbrev pub off_board : Point → Bool
off_board p = ltb p.x 1 || ltb board_width p.x || ltb p.y 1 || ltb board_height p.y

-- `body[index] = body[index - 1]`, from the index down to 1.
pub shift_body : ℕ → (ℕ → Point) → ℕ → Point
shift_body zero body = body
shift_body (suc i) body = shift_body i (update body (suc i) (body i))

abbrev pub with_result : Option Snake → Option (Bool × Snake)
with_result none = none
with_result (some s) = some (true, s)

-- The move of `tick` to the point `next`.
pub move_to : ℕ → Point → Snake → Option (Bool × Snake)
move_to fuel next s =
    let ate_food = same_point next s.food in
    let new_count = if ate_food && ltb s.count max_segments then s.count + 1 else s.count in
    let moved = record s {
      body = update (shift_body (new_count - 1) s.body) 0 next;
      count = new_count;
    } in
    if off_board next || occupies (if ate_food then s.count else s.count - 1) s.body next
    then some (false, record s { running = false })
    else (if ate_food then with_result (spawn_food fuel moved) else some (true, moved))

pub tick : ℕ → Snake → Option (Bool × Snake)
tick fuel s =
    let counted = record s { tick_count = s.tick_count + 1 } in
    if s.running
    then (if ltb (s.tick_count + 1) move_interval_ticks
        then some (s.running, counted)
        else move_to fuel (step s.requested_direction (s.body 0))
            (record s { tick_count = 0; direction = s.requested_direction }))
    else some (s.running, s)
