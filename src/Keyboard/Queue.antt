-- ===== src/Keyboard/Queue.antt =====
-- The ring of keyboard.cpp as a queue of characters.
use venom_os.Base.{
  ℕ, zero, suc, ◌+◌, ◌-◌, ◌%◌, ◌^◌, ◌<◌, ◌≡◌, ◌≢◌, ◌==◌, if◌then◌else◌, Bool, true, false, List, [],
  ◌∷◌, ◌++◌, refl, ap, subst, ◌∙◌, arith, Bool-cases, inl, inr, ◌⊎◌, ◌&&◌, ◌||◌,
}
use venom_os.Base.Bits.{bit}
use venom_os.Base.Memory.{update, u8}
use venom_os.Keyboard.{
  Keyboard, queue_size, enqueue, available, read_char, extended_key, plain_key, translate,
  end_sequence, process_scancode,
}

pub record IsQueue (k : Keyboard) : Type 0 where
  pub head : k.queue_head < queue_size
  pub tail : k.queue_tail < queue_size

-- The characters of the ring from an index on.
unfoldable pub items : ℕ → ℕ → (ℕ → ℕ) → List ℕ
items zero i queue = []
items (suc n) i queue = queue i ∷ items n ((i + 1) % queue_size) queue

-- The characters that wait, the oldest first.
abbrev pub waiting : Keyboard → ℕ
waiting k = (k.queue_head + queue_size - k.queue_tail) % queue_size

abbrev pub contents : Keyboard → List ℕ
contents k = items (waiting k) k.queue_tail k.queue

items-update :
    (n i h c : ℕ) (queue : ℕ → ℕ)
    → i < queue_size
    → n < queue_size
    → (i + n) % queue_size ≡ h
    → items n i (update queue h c) ≡ items n i queue
unfolding items
items-update zero i h c queue lt small e = refl
items-update (suc n) i h c queue lt small e =
    rw (items-update n ((i + 1) % queue_size) h c queue (omega arith) (omega arith) (omega arith))
      (ap (λ (x : ℕ). x ∷ items n ((i + 1) % queue_size) queue) (ground arith))

items_snoc :
    (n i : ℕ) (queue : ℕ → ℕ)
    → i < queue_size
    → items (suc n) i queue ≡ items n i queue ++ (queue ((i + n) % queue_size) ∷ [])
unfolding items
items_snoc zero i queue lt = ap (λ (j : ℕ). queue j ∷ []) (omega arith)
items_snoc (suc n) i queue lt =
    ap (λ (l : List ℕ). queue i ∷ l)
      (items_snoc n ((i + 1) % queue_size) queue (omega arith)
        ∙ ap (λ (j : ℕ). items n ((i + 1) % queue_size) queue ++ (queue j ∷ [])) (omega arith))

enqueue-contents :
    (c : ℕ) (k : Keyboard)
    → IsQueue k
    → items (suc (waiting k)) k.queue_tail (update k.queue k.queue_head c) ≡ contents k ++ (c ∷ [])
enqueue-contents c k q =
    items_snoc (waiting k) k.queue_tail (update k.queue k.queue_head c) q.tail
    ∙ ap
        (λ (l : List ℕ).
          l ++ (update k.queue k.queue_head c ((k.queue_tail + waiting k) % queue_size) ∷ []))
        (items-update (waiting k) k.queue_tail k.queue_head c k.queue q.tail (omega arith)
          (omega (arith, q.head, q.tail)))
    ∙ ap (λ (x : ℕ). contents k ++ (x ∷ [])) (ground (arith, q.head, q.tail))

-- `enqueue` puts a character behind those that wait, or drops it if 63 wait.
pub enqueue_lem :
    (c : ℕ) (k : Keyboard)
    → IsQueue k
    → IsQueue (enqueue c k)
      × (((waiting k < 63) × (contents (enqueue c k) ≡ contents k ++ (c ∷ [])))
          ⊎ ((waiting k ≡ 63) × (enqueue c k ≡ k)))
unfolding enqueue
enqueue_lem c k q = elim (Bool-cases ((k.queue_head + 1) % queue_size % 2 ^ 8 == k.queue_tail)) [
  | inl full ↦ rw full (q, inr (ground (arith, q.head, q.tail), refl))
  | inr room ↦ rw room (
    record { head = omega (arith, q.head); tail = q.tail },
    inl (
      ground (arith, q.head, q.tail),
      subst
          (λ (n : ℕ). items n k.queue_tail (update k.queue k.queue_head c) ≡ contents k ++ (c ∷ []))
          (ground (arith, q.head, q.tail)) (enqueue-contents c k q),
    ),
  )
]

contents_oldest :
    (k : Keyboard)
    → IsQueue k
    → k.queue_head ≢ k.queue_tail
    → let next = u8 ((k.queue_tail + 1) % queue_size) in
      contents k
      ≡ k.queue k.queue_tail ∷ items ((k.queue_head + queue_size - next) % queue_size) next k.queue
unfolding items
contents_oldest k q ne =
    ap (λ (n : ℕ). items n k.queue_tail k.queue) fewer
    ∙ ap (λ (i : ℕ). k.queue k.queue_tail ∷ items left i k.queue) (omega arith)
  where
    left : ℕ
    left = (k.queue_head + queue_size - u8 ((k.queue_tail + 1) % queue_size)) % queue_size

    fewer : waiting k ≡ suc left
    fewer = omega (arith, q.head, q.tail, ne)

contents-empty : (k : Keyboard) → k.queue_head ≡ k.queue_tail → contents k ≡ []
unfolding items
contents-empty k e = ap (λ (n : ℕ). items n k.queue_tail k.queue) none_wait
  where
    none_wait : waiting k ≡ 0
    none_wait = omega (arith, e)

-- `read_char` takes the oldest character, and returns 0 from an empty queue and changes nothing.
pub read_char_lem :
    (k : Keyboard)
    → IsQueue k
    → IsQueue (read_char k).1
      × ((contents k ≡ (read_char k).0 ∷ contents (read_char k).1)
          ⊎ ((contents k ≡ []) × (read_char k ≡ (0, k))))
unfolding read_char available
read_char_lem k q = elim (Bool-cases (k.queue_head == k.queue_tail)) [
  | inl empty ↦ rw empty (q, inr (contents-empty k (ground arith), refl))
  | inr some_waiting ↦ rw some_waiting (
    record { head = q.head; tail = omega (arith, q.tail) },
    inl (contents_oldest k q (ground arith)),
  )
]

enqueue-IsQueue : (c : ℕ) (k : Keyboard) → IsQueue k → IsQueue (enqueue c k)
enqueue-IsQueue c k q = (enqueue_lem c k q).0

extended_key-IsQueue : (key : ℕ) (k : Keyboard) → IsQueue k → IsQueue (extended_key key k)
unfolding enqueue
extended_key-IsQueue key k q = ground arith

if-IsQueue : (b : Bool) (k k' : Keyboard) → IsQueue k → IsQueue k' → IsQueue (if b then k else k')
if-IsQueue true k k' q q' = q
if-IsQueue false k k' q q' = q'

plain_key-IsQueue : (b : Bool) (key : ℕ) (k : Keyboard) → IsQueue k → IsQueue (plain_key b key k)
plain_key-IsQueue b key k q = if-IsQueue b k _ q (
    if-IsQueue k.extended_sequence k _ q
      (if-IsQueue (translate key k == 0) k _ q (enqueue-IsQueue (translate key k) k q)))

end_sequence-IsQueue : (k : Keyboard) → IsQueue k → IsQueue (end_sequence k)
end_sequence-IsQueue k q = record { head = q.head; tail = q.tail }

-- Whatever scancode arrives, the indices of the ring stay inside it.
pub process_scancode-IsQueue :
    (scancode : ℕ) (k : Keyboard) → IsQueue k → IsQueue (process_scancode scancode k)
unfolding process_scancode
process_scancode-IsQueue scancode k q = elim (Bool-cases (scancode == 0xe0)) [
  | inl prefix ↦ rw prefix (record { head = q.head; tail = q.tail })
  | inr other ↦
      elim (Bool-cases (k.extended_sequence && (if bit scancode 7 == 1 then false else true))) [
        | inl extended ↦
            rw (other, extended)
              (end_sequence-IsQueue (extended_key (scancode % 128) k)
                (extended_key-IsQueue (scancode % 128) k q))
        | inr plain ↦ elim (Bool-cases (scancode % 128 == 0x2a || scancode % 128 == 0x36)) [
          | inl shift ↦ rw (other, plain, shift) (record { head = q.head; tail = q.tail })
          | inr key ↦
              elim (Bool-cases
                (scancode % 128 == 0x3a && (if bit scancode 7 == 1 then false else true))) [
                  | inl caps ↦
                      rw (other, plain, key, caps) (record { head = q.head; tail = q.tail })
                  | inr rest ↦
                      rw (other, plain, key, rest)
                        (end_sequence-IsQueue (plain_key (bit scancode 7 == 1) (scancode % 128) k)
                          (plain_key-IsQueue (bit scancode 7 == 1) (scancode % 128) k q))
                ]
        ]
      ]
]
