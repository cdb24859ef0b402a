-- ===== src/Keyboard/Queue.antt =====
-- The keyboard driver of kernel/keyboard.c against a queue of at most 31 characters with the state of
-- the shift keys.
use toutatis.Common.{
  ℕ, zero, suc, ◌+◌, ◌-◌, ◌/◌, ◌%◌, ◌<◌, ◌≡◌, ◌≢◌, inl, inr, refl, sym, ◌∙◌, ap, arith, Bool, true,
  false, Bool-cases, Option, none, some, List, [], ◌∷◌, ◌++◌, ◌==◌, ltb, leb, if◌then◌else◌, length,
}
use toutatis.Keyboard.{
  Keyboard, kbd_buf_size, keymap_us, is_shift, store_char, keyboard_handler, keyboard_getchar,
}
use toutatis.Keyboard.Ring.{
  pending_from, waiting, length-pending_from, pending_from-append, waiting-write, waiting-full,
  waiting-empty, waiting-read, write_place,
}

-- The queue of the characters typed and not yet read, the oldest first.
pub record Typing : Type 0 where
  pub queue : List ℕ
  pub shift : Bool
  pub last : ℕ

-- A character that finds 31 others waiting is lost.
abbrev pub enqueue : List ℕ → ℕ → List ℕ
enqueue q c = if ltb (length q) 31 then q ++ (c ∷ []) else q

abbrev pub typed : Typing → ℕ → Typing
typed t c = record t { queue = enqueue t.queue c; last = c }

pub press : Typing → ℕ → Typing
press t code =
    if leb 128 code
    then (if is_shift (code - 128) then record t { shift = false } else t)
    else (if is_shift code
        then record t { shift = true }
        else typed t (keymap_us (if t.shift then 1 else 0) code))

-- The first waiting character, or the first that the interrupts bring.
pub receive : List ℕ → Typing → Option (ℕ × Typing × List ℕ)
receive [] t = elim t.queue [ [] ↦ none | c ∷ q ↦ some (c, record t { queue = q }, []) ]
receive (code ∷ later) t = elim t.queue [
  | [] ↦ receive later (press t code)
  | c ∷ q ↦ some (c, record t { queue = q }, code ∷ later)
]

pub record IsValid (k : Keyboard) : Type 0 where
  pub read_below : k.read_idx < 32
  pub write_below : k.write_idx < 32
  pub shift_below : k.shift_pressed < 2

abbrev pub pending : Keyboard → List ℕ
pending k = pending_from k.kbd_buffer k.read_idx (waiting k.read_idx k.write_idx)

abbrev pub view : Keyboard → Typing
view k = record { queue = pending k; shift = k.shift_pressed == 1; last = k.last_char }

store_char-enqueue :
    (k : Keyboard)
    → IsValid k
    → IsValid (store_char k)
      × (pending (store_char k) ≡ enqueue (pending k) k.last_char)
      × ((store_char k).shift_pressed ≡ k.shift_pressed)
      × ((store_char k).last_char ≡ k.last_char)
store_char-enqueue k ok =
    let len = length-pending_from k.kbd_buffer k.read_idx (waiting k.read_idx k.write_idx) in
    elim (Bool-cases ((k.write_idx + 1) % kbd_buf_size == k.read_idx)) [
      | inl full ↦
          let w = waiting-full k.read_idx k.write_idx ok.read_below ok.write_below (ground arith) in
          let no_room : ltb (length (pending k)) 31 ≡ false = ground arith in
          rw (full, no_room) (ok, refl, refl, refl)
      | inr free ↦
          let (grown, below) =
            waiting-write k.read_idx k.write_idx ok.read_below ok.write_below (ground arith) in
          let room : ltb (length (pending k)) 31 ≡ true = ground arith in
          rw (free, room, grown)
            (
              record {
                read_below = ok.read_below;
                write_below = omega arith;
                shift_below = ok.shift_below;
              },
              pending_from-append k.kbd_buffer k.read_idx (waiting k.read_idx k.write_idx)
                  k.write_idx k.last_char ok.read_below (omega arith)
                  (write_place k.read_idx k.write_idx ok.read_below ok.write_below),
              refl,
              refl,
            )
    ]

shift_row_same : (s code : ℕ) → s < 2 → keymap_us s code ≡ keymap_us (if s == 1 then 1 else 0) code
shift_row_same zero code h = refl
shift_row_same (suc zero) code h = refl
shift_row_same (suc (suc s)) code h = absurd (omega arith)

Typing-eq : (t t' : Typing) → t.queue ≡ t'.queue → t.shift ≡ t'.shift → t.last ≡ t'.last → t ≡ t'
Typing-eq t t' e f g = λ i. record { queue = e i; shift = f i; last = g i }

-- The interrupt handler keeps the driver's state valid, and to the queue it does what the pressed or
-- released key means.
pub keyboard_handler-press :
    (k : Keyboard) (code : ℕ)
    → IsValid k
    → code < 256
    → IsValid (keyboard_handler k code).0 × (view (keyboard_handler k code).0 ≡ press (view k) code)
unfolding keyboard_handler press
keyboard_handler-press k code ok h = elim (Bool-cases (leb 128 code)) [
  | inl released ↦
      let top : (code / 128 % 2 == 1) ≡ true = ground arith in
      let low : code % 128 ≡ code - 128 = ground arith in
      elim (Bool-cases (is_shift (code - 128))) [
        | inl s ↦
            rw (top, released, low, s)
              (
                record {
                  read_below = ok.read_below;
                  write_below = ok.write_below;
                  shift_below = omega arith;
                },
                refl,
              )
        | inr n ↦ rw (top, released, low, n) (ok, refl)
      ]
  | inr pressed ↦
      let top : (code / 128 % 2 == 1) ≡ false = ground arith in
      elim (Bool-cases (is_shift code)) [
        | inl s ↦
            rw (top, pressed, s)
              (
                record {
                  read_below = ok.read_below;
                  write_below = ok.write_below;
                  shift_below = omega arith;
                },
                refl,
              )
        | inr n ↦
            let c = keymap_us k.shift_pressed code in
            let (valid, queue, shift, last) =
              store_char-enqueue (record k { last_char = c })
                (record {
                  read_below = ok.read_below;
                  write_below = ok.write_below;
                  shift_below = ok.shift_below;
                }) in
            let row = shift_row_same k.shift_pressed code ok.shift_below in
            rw (top, pressed, n)
              (
                valid,
                Typing-eq (view (store_char (record k { last_char = c })))
                    (typed (view k) (keymap_us (if k.shift_pressed == 1 then 1 else 0) code))
                    (queue ∙ ap (enqueue (pending k)) row) (ap (λ s. s == 1) shift) (last ∙ row),
              )
      ]
]

unfoldable pub AreBytes : List ℕ → Type 0
AreBytes [] = Unit
AreBytes (code ∷ later) = (code < 256) × AreBytes later

-- The result of `keyboard_getchar`, with the driver's state seen as a queue.
abbrev pub seen : Option (ℕ × Keyboard × List ℕ) → Option (ℕ × Typing × List ℕ)
seen none = none
seen (some (c, k, later)) = some (c, view k, later)

nothing_waits : (k : Keyboard) → IsValid k → k.read_idx ≡ k.write_idx → pending k ≡ []
unfolding pending_from
nothing_waits k ok e =
    ap (pending_from k.kbd_buffer k.read_idx)
      (waiting-empty k.read_idx k.write_idx ok.read_below ok.write_below e)

first_waits :
    (k : Keyboard)
    → IsValid k
    → k.read_idx ≢ k.write_idx
    → pending k
      ≡ k.kbd_buffer k.read_idx ∷ pending (record k { read_idx = (k.read_idx + 1) % kbd_buf_size })
unfolding pending_from
first_waits k ok n =
    ap (pending_from k.kbd_buffer k.read_idx)
      (waiting-read k.read_idx k.write_idx ok.read_below ok.write_below n)

receive_empty :
    (code : ℕ) (later : List ℕ) (t : Typing)
    → t.queue ≡ []
    → receive (code ∷ later) t ≡ receive later (press t code)
unfolding receive
receive_empty code later t h = rw h refl

-- `keyboard_getchar` returns the oldest waiting character, or waits for the first that the interrupts
-- bring; it goes on waiting only if they bring none.
pub keyboard_getchar-receive :
    (codes : List ℕ) (k : Keyboard)
    → IsValid k
    → AreBytes codes
    → seen (keyboard_getchar codes k) ≡ receive codes (view k)
unfolding keyboard_getchar receive AreBytes
keyboard_getchar-receive [] k ok bytes = elim (Bool-cases (k.read_idx == k.write_idx)) [
  | inl e ↦ let none_waits = nothing_waits k ok (ground arith) in rw (e, none_waits) refl
  | inr n ↦ let waits = first_waits k ok (ground arith) in rw (n, waits) refl
]
keyboard_getchar-receive (code ∷ later) k ok (byte, bytes) =
    elim (Bool-cases (k.read_idx == k.write_idx)) [
      | inl e ↦
          let none_waits = nothing_waits k ok (ground arith) in
          let (valid, same) = keyboard_handler-press k code ok byte in
          let rest = keyboard_getchar-receive later (keyboard_handler k code).0 valid bytes in
          rw e rest ∙ ap (receive later) same ∙ sym (receive_empty code later (view k) none_waits)
      | inr n ↦ let waits = first_waits k ok (ground arith) in rw (n, waits) refl
    ]
