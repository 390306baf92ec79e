-- ===== src/Irq/Install.antt =====
-- Installing and removing interrupt handlers in src/kernel/bin/irq.c.
use opsys.Base.{
  ℕ, ◌≡◌, refl, ◌≢◌, sym, true, false, Bool, ◌⊎◌, inl, inr, List, [], ◌∷◌, ◌++◌, arith, eq→==,
  Result, ok, err, Errno, Bool-cases,
}
use mathlib.Core.List.{append-nil}
use opsys.LinkedList.{Links, is_empty, enqueue_back, dequeue}
use opsys.LinkedList.Chain.{IsRing, has, SameOutside}
use opsys.LinkedList.Enqueue.{enqueue_back-append}
use opsys.LinkedList.Dequeue.{dequeue-remove}
use opsys.Irq.{
  Irq, PicCall, enable, disable, head_of, cli_if_on, sti_if_on, install_irq_handler,
  remove_irq_handler,
}

-- The calls of the interrupt controller for the first handler of a line, and for the last.
unfoldable pub if_none : List ℕ → PicCall → List PicCall
if_none [] c = c ∷ []
if_none (x ∷ xs) c = []

-- The state after a call: the interrupt flag, the function pointers and the handlers' calls are as
-- before.
pub record Left (s s' : Irq) (xs : List ℕ) (head : ℕ) (written : List ℕ) (calls : List PicCall)
    : Type 0 where
  pub ring : IsRing s'.links head xs
  pub others : SameOutside written s.links s'.links
  pub ints : s'.ints ≡ s.ints
  pub pic : s'.pic ≡ s.pic ++ calls
  pub called : s'.called ≡ s.called

is_empty-IsRing :
    (l : Links) (h : ℕ) (xs : List ℕ)
    → IsRing l h xs
    → ((xs ≡ []) × (is_empty l h ≡ true))
      ⊎ ((is_empty l h ≡ false) × (xs ≢ []) × ((c : PicCall) → if_none xs c ≡ []))
unfolding is_empty if_none
is_empty-IsRing l h [] r = inl (refl, eq→== _ _ r.chain.0)
is_empty-IsRing l h (x ∷ xs) r =
    inr (ground (arith, r.chain, r.distinct), λ e. absurd (cc e), λ c. refl)

module _ (s : Irq) (irqno irqh : ℕ) where
  -- What `remove_irq_handler` does, field by field.
  remove_fields :
      (zs : List ℕ)
      → IsRing (dequeue irqh s.links) (head_of s irqno) zs
      → let s' = remove_irq_handler irqno irqh s in
        (s'.links ≡ dequeue irqh s.links)
        × (s'.ints ≡ s.ints)
        × (s'.pic ≡ s.pic ++ if_none zs (disable s.disable_irq irqno))
        × (s'.called ≡ s.called)
  unfolding remove_irq_handler cli_if_on sti_if_on if_none
  remove_fields zs ring = elim (is_empty-IsRing (dequeue irqh s.links) (head_of s irqno) zs ring) [
    | inl (none_left, e) ↦ elim (Bool-cases s.ints) [
      | inl on ↦ rw (none_left, on) (rw e (refl, refl, refl, refl))
      | inr off ↦ rw (none_left, off) (rw e (refl, refl, refl, refl))
    ]
    | inr (e, others, some_left) ↦ elim (Bool-cases s.ints) [
      | inl on ↦ rw on (rw (e, some_left) (refl, refl, sym (append-nil s.pic), refl))
      | inr off ↦ rw off (rw (e, some_left) (refl, refl, sym (append-nil s.pic), refl))
    ]
  ]

  -- Removing the handler `irqh` from a line takes it off the line's list, keeps the order of the
  -- others and the interrupt flag, and disables the interrupt exactly if no handler is left.
  pub remove_irq_handler_lem :
      (xs ys : List ℕ)
      → IsRing s.links (head_of s irqno) (xs ++ irqh ∷ ys)
      → Left s
          (remove_irq_handler irqno irqh s)
          (xs ++ ys)
          (head_of s irqno)
          (head_of s irqno ∷ xs ++ irqh ∷ ys)
          (if_none (xs ++ ys) (disable s.disable_irq irqno))
  remove_irq_handler_lem xs ys ring =
      let d = dequeue-remove irqh xs ys ring in
      let f = remove_fields (xs ++ ys) d.0 in
      record { ring = rw f.0 d.0; others = rw f.0 d.3; ints = f.1; pic = f.2; called = f.3 }

Result-cases : (r : Result (Unit {0})) → ((a : Unit {0}) × (r ≡ ok a)) ⊎ ((e : Errno) × (r ≡ err e))
Result-cases (ok a) = inl (a, refl)
Result-cases (err e) = inr (e, refl)

-- The result and the fields of the state after an installation.
abbrev Effect :
    (ℕ → ℕ → Result (Unit {0}))
    → Irq
    → (irqno irqh : ℕ) → Result (Unit {0})
    → Links
    → List PicCall
    → Type 0
Effect run_enable s irqno irqh res links calls =
    let r = install_irq_handler run_enable irqno irqh s in
    (r.0 ≡ res)
    × (r.1.links ≡ links)
    × (r.1.ints ≡ s.ints)
    × (r.1.pic ≡ s.pic ++ calls)
    × (r.1.called ≡ s.called)

abbrev with_ints : Irq → Bool → Irq
with_ints s ints = record s { ints = ints }

abbrev after_enable : Result (Unit {0}) → Links → ℕ → ℕ → Links
after_enable (err e) l head irqh = l
after_enable (ok a) l head irqh = enqueue_back head irqh l

module _ (run_enable : ℕ → ℕ → Result (Unit {0})) (s : Irq) (irqno irqh : ℕ) where
  first_handler :
      (ints : Bool) (res : Result (Unit {0}))
      → is_empty s.links (head_of s irqno) ≡ true
      → run_enable s.enable_irq irqno ≡ res
      → Effect run_enable
          (with_ints s ints)
          irqno
          irqh
          res
          (after_enable res s.links (head_of s irqno) irqh)
          (enable s.enable_irq irqno ∷ [])
  unfolding install_irq_handler cli_if_on sti_if_on
  first_handler true (err x) e run = rw (e, run) (refl, refl, refl, refl, refl)
  first_handler true (ok a) e run = rw (e, run) (refl, refl, refl, refl, refl)
  first_handler false (err x) e run = rw (e, run) (refl, refl, refl, refl, refl)
  first_handler false (ok a) e run = rw (e, run) (refl, refl, refl, refl, refl)

  later_handler :
      (ints : Bool)
      → is_empty s.links (head_of s irqno) ≡ false
      → Effect run_enable
          (with_ints s ints)
          irqno
          irqh
          (ok tt)
          (enqueue_back (head_of s irqno) irqh s.links)
          []
  unfolding install_irq_handler cli_if_on sti_if_on
  later_handler true e = rw e (refl, refl, refl, sym (append-nil s.pic), refl)
  later_handler false e = rw e (refl, refl, refl, sym (append-nil s.pic), refl)

  -- The interrupt controller refused the first handler of a line.
  pub Refused : List ℕ → Type 0
  Refused xs =
      let r = install_irq_handler run_enable irqno irqh s in
      (e : Errno) × (xs ≡ [])
      × (run_enable s.enable_irq irqno ≡ err e)
      × (r.0 ≡ err e)
      × Left s r.1 xs (head_of s irqno) [] (enable s.enable_irq irqno ∷ [])

  -- The handler is the last of its line. If the line had none before, the interrupt controller was
  -- asked to enable the interrupt and did so.
  pub Appended : List ℕ → Type 0
  Appended xs =
      let r = install_irq_handler run_enable irqno irqh s in
      (((xs ≡ []) × (run_enable s.enable_irq irqno ≡ ok tt)) ⊎ (xs ≢ []))
      × (r.0 ≡ ok tt)
      × Left s r.1 (xs ++ irqh ∷ []) (head_of s irqno) (irqh ∷ head_of s irqno ∷ xs)
          (if_none xs (enable s.enable_irq irqno))

  -- Installing a handler that is not at address 0 and not yet on the list of its line asks the
  -- interrupt controller to enable the interrupt exactly if the line has no handler yet; if that
  -- fails, the error is returned and no list changes, and otherwise the handler becomes the last of
  -- the line. The interrupt flag is as before on each way out.
  pub install_irq_handler_lem :
      (xs : List ℕ)
      → IsRing s.links (head_of s irqno) xs
      → has irqh (head_of s irqno ∷ xs) ≡ false
      → irqh ≢ 0
      → Refused xs ⊎ Appended xs
  unfolding Refused Appended if_none
  install_irq_handler_lem xs ring fresh pos =
      let appended = enqueue_back-append irqh xs ring fresh pos in
      elim (is_empty-IsRing s.links (head_of s irqno) xs ring) [
        | inr (e, others, some_left) ↦
            let f = later_handler s.ints e in
            inr (
              inr others,
              f.0,
              record {
                ring = rw f.1 appended.0;
                others = rw f.1 appended.1;
                ints = f.2;
                pic = rw some_left f.3;
                called = f.4;
              },
            )
        | inl (none_yet, e) ↦ elim (Result-cases (run_enable s.enable_irq irqno)) [
          | inl (a, run) ↦
              let f = first_handler s.ints (ok a) e run in
              inr (
                inl (none_yet, run),
                f.0,
                record {
                  ring = rw f.1 appended.0;
                  others = rw f.1 appended.1;
                  ints = f.2;
                  pic = rw none_yet f.3;
                  called = f.4;
                },
              )
          | inr (x, run) ↦
              let f = first_handler s.ints (err x) e run in
              inl (
                x,
                none_yet,
                run,
                f.0,
                record {
                  ring = rw f.1 ring;
                  others = rw f.1 (λ a o. (refl, refl));
                  ints = f.2;
                  pic = f.3;
                  called = f.4;
                },
              )
        ]
      ]
