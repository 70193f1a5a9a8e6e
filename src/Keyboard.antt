-- ===== src/Keyboard.antt =====
-- kernel/keyboard.cpp: the queue of characters and the decoding of scancodes. The 8042 controller is
-- outside: `poll` takes what its ports read.
pub mod Queue
mod Tests
use venom_os.Base.{
  ℕ, zero, suc, ◌+◌, ◌-◌, ◌*◌, ◌/◌, ◌%◌, ◌^◌, ◌==◌, if◌then◌else◌, Bool, true, false, ◌&&◌, ◌||◌,
  ltb, leb, List, [], ◌∷◌, get_or,
}
use venom_os.Base.Bits.{bit}
use venom_os.Base.Memory.{update, u8}

abbrev pub queue_size : ℕ
queue_size = 64

-- The entries after the last that is written out are 0, as those of the arrays.
abbrev pub keymap : List ℕ
keymap =
    0 ∷ 27 ∷ b'1' ∷ b'2' ∷ b'3' ∷ b'4' ∷ b'5' ∷ b'6' ∷ b'7' ∷ b'8' ∷ b'9' ∷ b'0' ∷ b'-' ∷ b'=' ∷ 8
    ∷ 9 ∷ b'q' ∷ b'w' ∷ b'e' ∷ b'r' ∷ b't' ∷ b'y' ∷ b'u' ∷ b'i' ∷ b'o' ∷ b'p' ∷ b'[' ∷ b']' ∷ 10 ∷ 0
    ∷ b'a' ∷ b's' ∷ b'd' ∷ b'f' ∷ b'g' ∷ b'h' ∷ b'j' ∷ b'k' ∷ b'l' ∷ b';' ∷ 39 ∷ b'`' ∷ 0 ∷ 92
    ∷ b'z' ∷ b'x' ∷ b'c' ∷ b'v' ∷ b'b' ∷ b'n' ∷ b'm' ∷ b',' ∷ b'.' ∷ b'/' ∷ 0 ∷ b'*' ∷ 0 ∷ b' ' ∷ []

abbrev pub shifted_keymap : List ℕ
shifted_keymap =
    0 ∷ 27 ∷ b'!' ∷ b'@' ∷ b'#' ∷ b'$' ∷ b'%' ∷ b'^' ∷ b'&' ∷ b'*' ∷ b'(' ∷ b')' ∷ b'_' ∷ b'+' ∷ 8
    ∷ 9 ∷ b'Q' ∷ b'W' ∷ b'E' ∷ b'R' ∷ b'T' ∷ b'Y' ∷ b'U' ∷ b'I' ∷ b'O' ∷ b'P' ∷ b'{' ∷ b'}' ∷ 10 ∷ 0
    ∷ b'A' ∷ b'S' ∷ b'D' ∷ b'F' ∷ b'G' ∷ b'H' ∷ b'J' ∷ b'K' ∷ b'L' ∷ b':' ∷ 34 ∷ b'~' ∷ 0 ∷ b'|'
    ∷ b'Z' ∷ b'X' ∷ b'C' ∷ b'V' ∷ b'B' ∷ b'N' ∷ b'M' ∷ b'<' ∷ b'>' ∷ b'?' ∷ 0 ∷ b'*' ∷ 0 ∷ b' ' ∷ []

-- The variables of the driver.
pub record Keyboard : Type 0 where
  pub queue : ℕ → ℕ
  pub queue_head : ℕ
  pub queue_tail : ℕ
  pub shift_down : Bool
  pub caps_lock : Bool
  pub extended_sequence : Bool

-- A full queue drops the character.
pub enqueue : ℕ → Keyboard → Keyboard
enqueue character k =
    let next_head = u8 ((k.queue_head + 1) % queue_size) in
    if next_head == k.queue_tail
    then k
    else (record k { queue = update k.queue k.queue_head character; queue_head = next_head })

abbrev pub differ : Bool → Bool → Bool
differ true b = if b then false else true
differ false b = b

pub translate : ℕ → Keyboard → ℕ
translate scancode k =
    let character = get_or keymap scancode 0 in
    let alphabetic = leb b'a' character && leb character b'z' in
    if leb 128 scancode
    then 0
    else (if (if alphabetic then differ k.shift_down k.caps_lock else k.shift_down)
        then get_or shifted_keymap scancode 0
        else character)

abbrev pub end_sequence : Keyboard → Keyboard
end_sequence k = record k { extended_sequence = false }

-- The arrow keys, after the prefix.
abbrev pub extended_key : ℕ → Keyboard → Keyboard
extended_key key k =
    if key == 0x48
    then enqueue 0x11 k
    else (if key == 0x50
        then enqueue 0x12 k
        else (if key == 0x4b then enqueue 0x13 k else (if key == 0x4d then enqueue 0x14 k else k)))

abbrev pub enqueue_some : ℕ → Keyboard → Keyboard
enqueue_some character k = if character == 0 then k else enqueue character k

-- What is left once the prefix, an extended press and the two modifiers are dealt with.
abbrev pub plain_key : Bool → ℕ → Keyboard → Keyboard
plain_key released key k =
    if released then k else (if k.extended_sequence then k else enqueue_some (translate key k) k)

pub process_scancode : ℕ → Keyboard → Keyboard
process_scancode scancode k =
    let released = bit scancode 7 == 1 in
    let key = scancode % 128 in
    if scancode == 0xe0
    then (record k { extended_sequence = true })
    else (if k.extended_sequence && (if released then false else true)
        then end_sequence (extended_key key k)
        else (if key == 0x2a || key == 0x36
            then (record k {
              shift_down = if released then false else true;
              extended_sequence = false;
            })
            else (if key == 0x3a && (if released then false else true)
                then (record k {
                  caps_lock = if k.caps_lock then false else true;
                  extended_sequence = false;
                })
                else end_sequence (plain_key released key k))))

pub available : Keyboard → Bool
available k = if k.queue_head == k.queue_tail then false else true

pub read_char : Keyboard → ℕ × Keyboard
read_char k =
    if available k
    then (k.queue k.queue_tail, record k { queue_tail = u8 ((k.queue_tail + 1) % queue_size) })
    else (0, k)

-- What the status and the data port read.
pub poll : ℕ → ℕ → Keyboard → Keyboard
poll status data_byte k = if bit status 0 == 0 then k else process_scancode data_byte k
