-- ===== src/Keyboard/Tests.antt =====
-- Two characters on the keyboard of keyboard.cpp.
use venom_os.Base.{◌≡◌, ◌<◌, ◌++◌, ◌==◌, if◌then◌else◌, ◌⊎◌, arith, false, [], ◌∷◌}
use venom_os.Keyboard.{Keyboard, enqueue, read_char}
use venom_os.Keyboard.Queue.{IsQueue, waiting, contents, enqueue_lem, read_char_lem}

-- The ring wraps around: 9 at index 63, and then 8.
abbrev wrapped : Keyboard
wrapped = record {
  queue = λ i. if i == 63 then 9 else 8;
  queue_head = 1;
  queue_tail = 63;
  shift_down = false;
  caps_lock = false;
  extended_sequence = false;
}

wrapped-IsQueue : IsQueue wrapped
wrapped-IsQueue = record { head = omega arith; tail = omega arith }

enqueue_lem_example :
    IsQueue (enqueue 7 wrapped)
    × (((waiting wrapped < 63) × (contents (enqueue 7 wrapped) ≡ contents wrapped ++ (7 ∷ [])))
        ⊎ ((waiting wrapped ≡ 63) × (enqueue 7 wrapped ≡ wrapped)))
enqueue_lem_example = enqueue_lem 7 wrapped wrapped-IsQueue

read_char_lem_example :
    IsQueue (read_char wrapped).1
    × ((contents wrapped ≡ (read_char wrapped).0 ∷ contents (read_char wrapped).1)
        ⊎ ((contents wrapped ≡ []) × (read_char wrapped ≡ (0, wrapped))))
read_char_lem_example = read_char_lem wrapped wrapped-IsQueue
