-- ===== src/Snake/Turn.antt =====
-- The direction that snake.cpp takes from the keys.
use venom_os.Base.{ℕ, ◌≡◌, ◌==◌, false, Bool-cases, inl, inr}
use venom_os.Snake.{Snake, Direction, is_opposite, request, handle_key, up, down, left, right}

-- The direction that is asked for is not the opposite of the one the snake moves in.
abbrev pub IsTurn : Snake → Type 0
IsTurn s = is_opposite s.direction s.requested_direction ≡ false

request-IsTurn : (d : Direction) (s : Snake) → IsTurn s → IsTurn (request d s)
request-IsTurn d s t = elim (Bool-cases (is_opposite s.direction d)) [
  | inl opposite ↦ rw opposite t
  | inr turn ↦ rw turn turn
]

-- A key never asks the snake to turn back into itself, if it did not before.
pub handle_key-IsTurn : (key : ℕ) (s : Snake) → IsTurn s → IsTurn (handle_key key s)
unfolding handle_key
handle_key-IsTurn key s t = elim (Bool-cases (key == 0x11)) [
  | inl k ↦ rw k (request-IsTurn up s t)
  | inr not_up ↦ elim (Bool-cases (key == 0x12)) [
    | inl k ↦ rw (not_up, k) (request-IsTurn down s t)
    | inr not_down ↦ elim (Bool-cases (key == 0x13)) [
      | inl k ↦ rw (not_up, not_down, k) (request-IsTurn left s t)
      | inr not_left ↦ elim (Bool-cases (key == 0x14)) [
        | inl k ↦ rw (not_up, not_down, not_left, k) (request-IsTurn right s t)
        | inr other ↦ rw (not_up, not_down, not_left, other) t
      ]
    ]
  ]
]
