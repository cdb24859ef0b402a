-- ===== src/Handlers/Attach.antt =====
-- `attach_interrupt_handler` and `detach_interrupt_handler` on a list of handlers.
use toutatis.Common.{
  ℕ, zero, suc, ◌+◌, ◌≤◌, ◌<◌, ◌≡◌, ◌≢◌, ◌⊎◌, inl, inr, refl, sym, ◌∙◌, ap, arith, true, false,
  Option, none, some, Option-cases, List, [], ◌∷◌, ◌++◌, ◌==◌, length,
}
use mathlib.Core.Path.{subst}
use toutatis.Common.Store.{update, update_self, update_ne}
use native.Mathlib.Decide.{ℕ_discrete}
use toutatis.Handlers.{
  Row, max_handlers, free_slot, place_first, place_behind, attach_interrupt_handler, unlink_slot,
  detach_back, detach_interrupt_handler, get_interrupt_handler,
}
use toutatis.Handlers.Chain.{IsChain, last, tail-last, place_behind-IsChain}

-- What a search of the `left` slots from `i` on finds.
abbrev FirstFree : Row → ℕ → ℕ → Option ℕ → Type 0
FirstFree r i left none = (j : ℕ) → i ≤ j → j < i + left → r.handler j ≢ 0
FirstFree r i left (some n) =
    (i ≤ n) × (n < i + left) × (r.handler n ≡ 0) × ((j : ℕ) → i ≤ j → j < n → r.handler j ≢ 0)

free_slot-step :
    (r : Row) (i left : ℕ) (found : Option ℕ)
    → r.handler i ≢ 0
    → FirstFree r (i + 1) left found
    → FirstFree r i (suc left) found
free_slot-step r i left none used rest = λ j from below. elim (ℕ_discrete j i) [
  | yes e ↦ rw e used
  | no ne ↦ rest j (omega arith) (omega arith)
]
free_slot-step r i left (some n) used (from, below, free, before) = (
  omega arith,
  omega arith,
  free,
  λ j jfrom jbelow. elim (ℕ_discrete j i) [
    | yes e ↦ rw e used
    | no ne ↦ before j (omega arith) jbelow
  ],
)

free_slot-FirstFree : (r : Row) (i left : ℕ) → FirstFree r i left (free_slot r i left)
unfolding free_slot
free_slot-FirstFree r i zero = λ j from below. absurd (omega arith)
free_slot-FirstFree r i (suc left) = elim (ℕ_discrete (r.handler i) 0) [
  | yes e ↦
      let free : (r.handler i == 0) ≡ true = ground arith in
      rw free (omega arith, omega arith, e, λ j from below. absurd (omega arith))
  | no ne ↦
      let used : (r.handler i == 0) ≡ false = ground arith in
      rw used
        (free_slot-step r i left (free_slot r (i + 1) left) ne (free_slot-FirstFree r (i + 1) left))
]

-- What an attached handler does to a list that is not empty: it stands at the end, in a free slot, or
-- the row is full and nothing changes.
abbrev pub Attached : Row → ℕ → List ℕ → Row → Type 0
Attached r v xs r' =
    ((n : ℕ) × (n < max_handlers)
      × (r.handler n ≡ 0)
      × (r'.handler n ≡ v)
      × (r'.head ≡ r.head)
      × IsChain r' none ((r.head ∷ xs) ++ (n ∷ [])))
    ⊎ ((r' ≡ r) × ((n : ℕ) → n < max_handlers → r.handler n ≢ 0))

-- `attach_interrupt_handler` on a list of at least one handler ends, and puts the handler behind the
-- others, or changes nothing when all slots are taken.
pub attach_interrupt_handler-Attached :
    (r : Row) (v : ℕ) (xs : List ℕ)
    → IsChain r none (r.head ∷ xs)
    → length xs < max_handlers
    → v ≢ 0
    → (r' : Row) × (attach_interrupt_handler r v ≡ some r') × Attached r v xs r'
unfolding attach_interrupt_handler place_behind
attach_interrupt_handler-Attached r v xs chain short full =
    let search = free_slot-FirstFree r 0 max_handlers in
    let busy : (r.handler r.head == 0) ≡ false = (let used = chain.0 in ground arith) in
    elim (Option-cases (free_slot r 0 max_handlers)) [
      | inl e ↦
          let all_used : FirstFree r 0 max_handlers none =
            subst (FirstFree r 0 max_handlers) e search in
          (
            r,
            rw (attach_interrupt_handler, e) refl,
            inr (refl, λ n below. all_used n (omega arith) (omega arith)),
          )
      | inr (n, e) ↦
          let (from, below, free, before) : FirstFree r 0 max_handlers (some n) =
            subst (FirstFree r 0 max_handlers) e search in
          (
            place_behind r n v (last r.head xs),
            rw
                (
                  attach_interrupt_handler,
                  e,
                  busy,
                  tail-last max_handlers r none r.head xs chain short,
                )
                refl,
            inl (
              n,
              omega arith,
              free,
              update_self r.handler n v,
              refl,
              place_behind-IsChain r none n v r.head xs chain free full,
            ),
          )
    ]

unlink_slot-single :
    (r : Row) (k : ℕ)
    → r.prev k ≡ none
    → r.next k ≡ none
    → unlink_slot r k ≡ record r { handler = update r.handler k 0 }
unfolding unlink_slot
unlink_slot-single r k back forth = rw (back, forth, back) refl

detach_interrupt_handler-single :
    (r : Row)
    → IsChain r none (r.head ∷ [])
    → detach_interrupt_handler r (r.handler r.head)
      ≡ some (record r { handler = update r.handler r.head 0 })
unfolding detach_interrupt_handler detach_back
detach_interrupt_handler-single r chain =
    let busy : (r.handler r.head == 0) ≡ false = (let used = chain.0 in ground arith) in
    let same : (r.handler r.head == r.handler r.head) ≡ true = ground arith in
    rw (busy, tail-last max_handlers r none r.head [] chain (omega arith), same)
      (ap some (unlink_slot-single r r.head chain.1 chain.2))

-- When the row is empty but its head is not slot 0, the next handler goes to slot 0 and is not found.
attach_interrupt_handler-lost :
    (r : Row) (v : ℕ)
    → r.handler r.head ≡ 0
    → r.handler 0 ≡ 0
    → r.head ≢ 0
    → (attach_interrupt_handler r v ≡ some (place_first r 0 v))
      × (get_interrupt_handler (place_first r 0 v) ≡ none)
unfolding attach_interrupt_handler get_interrupt_handler place_first free_slot
attach_interrupt_handler-lost r v gone empty away =
    let free : (r.handler 0 == 0) ≡ true = ground arith in
    let none_left : (r.handler r.head == 0) ≡ true = ground arith in
    let still : (update r.handler 0 v r.head == 0) ≡ true =
      (let e = update_ne r.handler 0 r.head v away in ground arith) in
    (rw (attach_interrupt_handler, free, none_left) refl, rw still refl)

-- When a single handler that stands in another slot than 0 is detached and slot 0 is free,
-- `handlers_heads` still names its slot: the next handler that is attached goes to slot 0 and is not
-- found.
pub detach_interrupt_handler-lost :
    (r : Row) (v : ℕ)
    → IsChain r none (r.head ∷ [])
    → r.handler 0 ≡ 0
    → (r1 : Row) × (detach_interrupt_handler r (r.handler r.head) ≡ some r1)
      × ((r2 : Row) × (attach_interrupt_handler r1 v ≡ some r2)
          × (r2.handler 0 ≡ v)
          × (get_interrupt_handler r2 ≡ none))
unfolding place_first
detach_interrupt_handler-lost r v chain empty =
    let r1 : Row = record r { handler = update r.handler r.head 0 } in
    let away : r.head ≢ 0 = λ e. chain.0 (ap r.handler e ∙ empty) in
    let ne : 0 ≢ r.head = λ e. away (sym e) in
    let (placed, lost) =
      attach_interrupt_handler-lost r1 v (update_self r.handler r.head 0)
        (update_ne r.handler r.head 0 0 ne ∙ empty) away in
    (
      r1,
      detach_interrupt_handler-single r chain,
      (place_first r1 0 v, placed, update_self r1.handler 0 v, lost),
    )
