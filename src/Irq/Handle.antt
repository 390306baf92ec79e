-- ===== src/Irq/Handle.antt =====
-- `handle_irq` of src/kernel/bin/irq.c asks the handlers of a line in their order.
use opsys.Base.{
  ℕ, zero, suc, ◌<◌, ◌≡◌, refl, ◌≢◌, sym, ap, ◌∙◌, true, false, Option, some, List, [], ◌∷◌, ◌++◌,
  length, arith, eq→==, ne→==, ◌⊎◌, inl, inr,
}
use mathlib.Core.List.{append_assoc, append-nil}
use opsys.LinkedList.{Links}
use opsys.LinkedList.Chain.{IsRing, Chain, has, first_of, Chain-first}
use opsys.Irq.{
  Irq, IrqStatus, irq_handled, irq_not_handled, Handler, handle_loop, handle_irq, head_of, log_call,
}

module _ (call : Handler) (irqno : ℕ) where
  -- Handlers that keep the `next` fields of the items behind them, as one that takes itself off
  -- the list does, and that change no function pointer.
  abbrev pub Spares : List ℕ → Type 0
  Spares [] = Unit {0}
  Spares (x ∷ xs) =
      ((s : Irq) (y : ℕ)
        → has y xs ≡ true
        → (call (s.func x) irqno x s).1.links.next y ≡ s.links.next y)
      × Spares xs

  -- What each handler answers, whatever the state, and that it calls no other handler.
  abbrev pub Answers : (ℕ → IrqStatus) → List ℕ → Type 0
  Answers answer [] = Unit {0}
  Answers answer (x ∷ xs) =
      ((s : Irq)
        → ((call (s.func x) irqno x s).0 ≡ answer x)
          × ((call (s.func x) irqno x s).1.called ≡ s.called))
      × Answers answer xs

-- The items up to the first that handles the interrupt.
unfoldable pub asked : (ℕ → IrqStatus) → List ℕ → List ℕ
asked answer [] = []
asked answer (x ∷ xs) =
    x ∷ (elim (answer x) [ irq_handled ↦ [] | irq_not_handled ↦ asked answer xs ])

-- The `next` fields lead through the items to the head.
abbrev Leads : Links → List ℕ → ℕ → Type 0
Leads l [] b = Unit {0}
Leads l (x ∷ xs) b = (l.next x ≡ first_of xs b) × Leads l xs b

Chain-Leads : (l : Links) (a : ℕ) (xs : List ℕ) (b : ℕ) → Chain l a xs b → Leads l xs b
Chain-Leads l a [] b c = tt
Chain-Leads l a (x ∷ xs) b c = (Chain-first l x xs b c.2, Chain-Leads l x xs b c.2)

Leads-kept :
    (l l' : Links) (xs : List ℕ) (b : ℕ)
    → ((y : ℕ) → has y xs ≡ true → l'.next y ≡ l.next y)
    → Leads l xs b
    → Leads l' xs b
Leads-kept l l' [] b same h = tt
Leads-kept l l' (x ∷ xs) b same h =
    (same x (ground arith) ∙ h.0, Leads-kept l l' xs b (λ y m. same y (ground arith)) h.1)

status_cases : (r : IrqStatus) → (r ≡ irq_handled) ⊎ (r ≡ irq_not_handled)
status_cases irq_handled = inl refl
status_cases irq_not_handled = inr refl

-- The loop ended, and the handlers were called in this order.
pub record Asked (s : Irq) (xs : List ℕ) (r : Option Irq) : Type 0 where
  pub s' : Irq
  pub returns : r ≡ some s'
  pub calls : s'.called ≡ s.called ++ xs

module _ (call : Handler) (irqno head : ℕ) (answer : ℕ → IrqStatus) where
  loop_end : (fuel : ℕ) (s : Irq) → handle_loop call (suc fuel) irqno head head s ≡ some s
  unfolding handle_loop
  loop_end fuel s = rw (eq→== head head refl)

  loop_next :
      (fuel item : ℕ) (s : Irq)
      → let r = call (s.func item) irqno item (log_call item s) in
        item ≢ head
        → r.0 ≡ irq_not_handled
        → handle_loop call (suc fuel) irqno head item s
          ≡ handle_loop call fuel irqno head (s.links.next item) r.1
  unfolding handle_loop
  loop_next fuel item s ne e = rw (ne→== item head ne, e) refl

  loop_break :
      (fuel item : ℕ) (s : Irq)
      → let r = call (s.func item) irqno item (log_call item s) in
        item ≢ head → r.0 ≡ irq_handled → handle_loop call (suc fuel) irqno head item s ≡ some r.1
  unfolding handle_loop
  loop_break fuel item s ne e = rw (ne→== item head ne, e) refl

  loop_lem :
      (fuel : ℕ) (s : Irq) (xs : List ℕ)
      → Leads s.links xs head
      → has head xs ≡ false
      → Spares call irqno xs
      → Answers call irqno answer xs
      → length xs < fuel
      → Asked s (asked answer xs) (handle_loop call fuel irqno head (first_of xs head) s)
  unfolding asked
  loop_lem zero s xs l d sp an f = absurd (omega arith)
  loop_lem (suc fuel) s [] l d sp an f = record {
    s' = s;
    returns = loop_end fuel s;
    calls = sym (append-nil s.called);
  }
  loop_lem (suc fuel) s (x ∷ xs) l d sp an f =
      let logged = log_call x s in
      let r = call (s.func x) irqno x logged in
      let a = an.0 logged in
      let ne : x ≢ head = ground arith in
      elim (status_cases (answer x)) [
        | inl handled ↦ record {
          s' = r.1;
          returns = loop_break fuel x s ne (a.0 ∙ handled);
          calls = rw handled a.1;
        }
        | inr passed ↦
            let kept = Leads-kept s.links r.1.links xs head (sp.0 logged) l.1 in
            let rest = loop_lem fuel r.1 xs kept (ground arith) sp.1 an.1 (omega arith) in
            record {
              s' = rest.s';
              returns = loop_next fuel x s ne (a.0 ∙ passed) ∙ rw l.0 rest.returns;
              calls = rw passed (
                  rest.calls
                  ∙ ap (λ c. c ++ asked answer xs) a.1
                  ∙ append_assoc s.called (x ∷ []) (asked answer xs));
            }
      ]

  -- On the list of handlers `xs` of a line, with handlers that spare the nodes behind them and
  -- fuel above their number, `handle_irq` ends and has called them in order, up to and with the
  -- first that answers that it handled the interrupt.
  pub handle_irq-Asked :
      (fuel : ℕ) (s : Irq) (xs : List ℕ)
      → head_of s irqno ≡ head
      → IsRing s.links head xs
      → Spares call irqno xs
      → Answers call irqno answer xs
      → length xs < fuel
      → Asked s (asked answer xs) (handle_irq call fuel irqno s)
  unfolding handle_irq
  handle_irq-Asked fuel s xs e ring sp an f =
      let r =
        loop_lem fuel s xs (Chain-Leads s.links head xs head ring.chain) ring.distinct.0 sp an f in
      record {
        s' = r.s';
        returns = rw (e, Chain-first s.links head xs head ring.chain) r.returns;
        calls = r.calls;
      }
