-- ===== src/Irq.antt =====
-- Interrupt handlers: src/kernel/bin/irq.c and irq.h, with `cli_if_on` and `sti_if_on` of
-- src/kernel/bin/arch/i386/interupt.c. A handler is the address of its list node.
pub mod Handle
pub mod Install
mod Examples
use opsys.Base.{
  ℕ, zero, suc, ◌+◌, ◌*◌, ◌-◌, ◌≡◌, Bool, true, false, Option, none, some, ◌==◌, if◌then◌else◌,
  List, [], ◌∷◌, ◌++◌, Result, ok, err,
}
use opsys.LinkedList.{
  Links, put, init_item, init_head, is_empty, list_begin, list_end, list_next, enqueue_back,
  dequeue,
}

pub data IrqStatus : Type 0 where
  irq_handled : IrqStatus
  irq_not_handled : IrqStatus

-- The calls of `enable_irq` and `disable_irq`, with the function pointer.
pub data PicCall : Type 0 where
  enable : (func irqno : ℕ) → PicCall
  disable : (func irqno : ℕ) → PicCall

-- `irqh` is the address of the array of list heads, `func` the function pointers of the handlers,
-- `ints` the interrupt flag; `pic` and `called` are the calls of the interrupt controller's
-- functions and of the handlers so far.
pub record Irq : Type 0 where
  pub links : Links
  pub irqh : ℕ
  pub func : ℕ → ℕ
  pub enable_irq : ℕ
  pub disable_irq : ℕ
  pub ints : Bool
  pub pic : List PicCall
  pub called : List ℕ

-- `g_irq_handling.irqh + irqno`.
abbrev pub head_of : Irq → ℕ → ℕ
head_of s irqno = s.irqh + 8 * irqno

unfoldable pub irq_handler_init : ℕ → ℕ → Irq → Irq
irq_handler_init irqh func s = record s {
  links = init_item irqh s.links;
  func = put s.func irqh func;
}

-- The loop over the first `left` list heads.
unfoldable pub init_heads : ℕ → ℕ → Links → Links
init_heads zero base l = l
init_heads (suc left) base l = init_head (base + 8 * left) (init_heads left base l)

unfoldable pub init_irq_handling : ℕ → ℕ → Irq → Irq
init_irq_handling enable_irq disable_irq s = record s {
  links = init_heads 256 s.irqh s.links;
  enable_irq = enable_irq;
  disable_irq = disable_irq;
}

-- A call of a handler's function, which may change the lists.
abbrev pub Handler : Type 0
Handler = (func irqno irqh : ℕ) → Irq → IrqStatus × Irq

abbrev pub log_call : ℕ → Irq → Irq
log_call item s = record s { called = s.called ++ item ∷ [] }

-- The loop of `handle_irq`, on fuel: the next item is read before the call.
unfoldable pub handle_loop : Handler → ℕ → ℕ → ℕ → ℕ → Irq → Option Irq
handle_loop call zero irqno head item s = none
handle_loop call (suc fuel) irqno head item s =
    let next = list_next s.links item in
    let r = call (s.func item) irqno item (log_call item s) in
    let rest = handle_loop call fuel irqno head next r.1 in
    if item == list_end head
    then some s
    else (elim r.0 [ irq_handled ↦ some r.1 | irq_not_handled ↦ rest ])

unfoldable pub handle_irq : Handler → ℕ → ℕ → Irq → Option Irq
handle_irq call fuel irqno s =
    handle_loop call fuel irqno (head_of s irqno) (list_begin s.links (head_of s irqno)) s

unfoldable pub cli_if_on : Irq → Bool × Irq
cli_if_on s = if s.ints then (true, record s { ints = false }) else (false, s)

unfoldable pub sti_if_on : Bool → Irq → Irq
sti_if_on ints_on s = if ints_on then record s { ints = true } else s

abbrev pub log_pic : PicCall → Irq → Irq
log_pic c s = record s { pic = s.pic ++ c ∷ [] }

-- `run_enable` gives the results of the function behind `enable_irq`.
unfoldable pub install_irq_handler :
    (ℕ → ℕ → Result (Unit {0})) → ℕ → ℕ → Irq → Result (Unit {0}) × Irq
install_irq_handler run_enable irqno irqh s0 =
    let saved = cli_if_on s0 in
    let s = saved.1 in
    let head = head_of s irqno in
    let add =
      λ (t : Irq). sti_if_on saved.0 (record t { links = enqueue_back head irqh t.links }) in
    if is_empty s.links head
    then (let t = log_pic (enable s.enable_irq irqno) s in
        elim (run_enable s.enable_irq irqno) [
          | err e ↦ (err e, sti_if_on saved.0 t)
          | ok _ ↦ (ok tt, add t)
        ])
    else (ok tt, add s)

unfoldable pub remove_irq_handler : ℕ → ℕ → Irq → Irq
remove_irq_handler irqno irqh s0 =
    let saved = cli_if_on s0 in
    let s = record saved.1 { links = dequeue irqh saved.1.links } in
    sti_if_on saved.0
      (if is_empty s.links (head_of s irqno) then log_pic (disable s.disable_irq irqno) s else s)
