-- ===== src/Handlers.antt =====
-- The interrupt handlers of one vector, kernel/system.c: the row `handlers[num]` of 50 slots with the
-- list that is linked through it, and `handlers_heads[num]`. A pointer into the row is the number of its
-- slot. A handler is an address, and 0 is a free slot.
mod Chain
pub mod Attach
pub mod Dispatch
pub mod Order
mod Tests
use toutatis.Common.{
  ℕ, zero, suc, ◌+◌, ◌-◌, ◌%◌, ◌^◌, Bool, true, false, Option, none, some, ◌==◌, if◌then◌else◌,
}
use toutatis.Common.Store.{update}

pub record Row : Type 0 where
  pub handler : ℕ → ℕ
  pub index : ℕ → ℕ
  pub next : ℕ → Option ℕ
  pub prev : ℕ → Option ℕ
  pub head : ℕ

abbrev pub max_handlers : ℕ
max_handlers = 50

-- The end of the list from the slot `h` on; `none` means that the fuel ran out.
pub tail : ℕ → Row → ℕ → Option ℕ
tail zero r h = none
tail (suc fuel) r h = elim (r.next h) [ none ↦ some h | some n ↦ tail fuel r n ]

-- The first free slot of the `left` slots from `i` on.
pub free_slot : Row → ℕ → ℕ → Option ℕ
free_slot r i zero = none
free_slot r i (suc left) =
    let rest = free_slot r (i + 1) left in if r.handler i == 0 then some i else rest

-- The new slot `n` becomes the first of the list, or goes behind the slot `h`.
pub place_first : Row → ℕ → ℕ → Row
place_first r n handler = record r {
  handler = update r.handler n handler;
  next = update r.next n none;
  index = update r.index n 1;
  prev = update r.prev n none;
}

pub place_behind : Row → ℕ → ℕ → ℕ → Row
place_behind r n handler h = record r {
  handler = update r.handler n handler;
  next = update (update r.next n none) h (some n);
  index = update r.index n ((r.index h + 1) % 2 ^ 32);
  prev = update r.prev n (some h);
}

-- The walk has fuel for every slot; `none` means that it was not enough.
pub attach_interrupt_handler : Row → ℕ → Option Row
attach_interrupt_handler r handler = elim (free_slot r 0 max_handlers) [
  | none ↦ some r
  | some n ↦
      if r.handler r.head == 0
      then some (place_first r n handler)
      else elim (tail max_handlers r r.head) [
        | none ↦ none
        | some h ↦ some (place_behind r n handler h)
      ]
]

-- The slot `h` leaves the list. If the first one leaves, the head is the next one, but it stays when
-- there is no next one.
pub unlink_slot : Row → ℕ → Row
unlink_slot r h =
    let r1 : Row = elim (r.prev h) [
      | none ↦ r
      | some p ↦ record r { next = update r.next p (r.next h) }
    ] in
    let r2 : Row = elim (r1.next h) [
      | none ↦ r1
      | some n ↦ record r1 {
        prev = update r1.prev n (r1.prev h);
        head = elim (r1.prev h) [ none ↦ n | some p ↦ r1.head ];
      }
    ] in
    record r2 { handler = update r2.handler h 0 }

-- From the slot `h` back to the first one.
pub detach_back : ℕ → Row → ℕ → ℕ → Option Row
unfolding unlink_slot
detach_back zero r handler h = none
detach_back (suc fuel) r handler h =
    let rest : Option Row = elim (r.prev h) [
      | none ↦ some r
      | some p ↦ detach_back fuel r handler p
    ] in
    if r.handler h == handler then some (unlink_slot r h) else rest

pub detach_interrupt_handler : Row → ℕ → Option Row
detach_interrupt_handler r handler =
    if r.handler r.head == 0 then some r else elim (tail max_handlers r r.head) [
      | none ↦ none
      | some h ↦ detach_back max_handlers r handler h
    ]

-- The slot of the first handler.
unfoldable pub get_interrupt_handler : Row → Option ℕ
get_interrupt_handler r = if r.handler r.head == 0 then none else some r.head
