-- ===== src/Sched/Queues.antt =====
-- The run queues: one ring of threads for each priority, with no node in two of them.
use opsys.Base.{
  ℕ, ◌<◌, ◌≡◌, refl, ◌≢◌, sym, true, false, List, [], ◌∷◌, ◌++◌, ◌==◌, if◌then◌else◌, Bool-cases,
  eq-cases, ◌∙◌, inl, inr, arith, ne→==, eq→==,
}
use mathlib.Core.Path.{subst}
use opsys.LinkedList.{Links, put, enqueue_back, dequeue}
use opsys.LinkedList.Chain.{has, IsRing, SameOutside, Chain-frame, has-append, has-remove}
use opsys.LinkedList.Enqueue.{enqueue_back-append}
use opsys.LinkedList.Dequeue.{dequeue-remove}
use opsys.Sched.{Sched, head_of, sched_add_thread, move_thread_to_back}

-- `q p` is the list of threads of priority `p`, front to back.
pub record IsQueues (s : Sched) (q : ℕ → List ℕ) : Type 0 where
  pub rings : (p : ℕ) → p < 256 → IsRing s.links (head_of s.g_thread p) (q p)
  pub apart :
      (p p' a : ℕ)
      → p < 256
      → p' < 256
      → has a (head_of s.g_thread p ∷ q p) ≡ true
      → has a (head_of s.g_thread p' ∷ q p') ≡ true
      → p ≡ p'
  pub prios : (p a : ℕ) → p < 256 → has a (q p) ≡ true → s.prio a ≡ p

-- The queues with that of one priority replaced.
unfoldable pub upd : (ℕ → List ℕ) → ℕ → List ℕ → ℕ → List ℕ
upd q p xs i = if i == p then xs else q i

pub upd-same : (q : ℕ → List ℕ) (p : ℕ) (xs : List ℕ) → upd q p xs p ≡ xs
unfolding upd
upd-same q p xs = rw (eq→== p p refl)

pub upd-other : (q : ℕ → List ℕ) (p : ℕ) (xs : List ℕ) (i : ℕ) → i ≢ p → upd q p xs i ≡ q i
unfolding upd
upd-other q p xs i ne = rw (ne→== i p ne)

-- A ring none of whose nodes is written.
pub IsRing-frame :
    (s t : Links) (h : ℕ) (xs ws : List ℕ)
    → IsRing s h xs
    → SameOutside ws s t
    → ((a : ℕ) → has a (h ∷ xs) ≡ true → has a ws ≡ false)
    → IsRing t h xs
IsRing-frame s t h xs ws r same away = record {
  chain =
      Chain-frame s h xs h r.chain (λ a m. (same a (away a m)).0) (λ a m. (same a (away a m)).1);
  distinct = r.distinct;
  not_null = r.not_null;
}

-- An operation that writes and adds only nodes of one queue, or of none.
module _ (s : Sched) (q : ℕ → List ℕ) (queues : IsQueues s q) (p : ℕ) where
  abbrev Own : ℕ → Type 0
  Own a = (p' : ℕ) → p' < 256 → has a (head_of s.g_thread p' ∷ q p') ≡ true → p' ≡ p

  IsQueues-replace :
      (t : Links) (prio : ℕ → ℕ) (xs ws : List ℕ)
      → IsRing t (head_of s.g_thread p) xs
      → SameOutside ws s.links t
      → ((a : ℕ) → has a ws ≡ true → Own a)
      → ((a : ℕ) → has a (head_of s.g_thread p ∷ xs) ≡ true → Own a)
      → ((a : ℕ) → has a xs ≡ true → prio a ≡ p)
      → ((p' a : ℕ) → p' < 256 → p' ≢ p → has a (q p') ≡ true → prio a ≡ p')
      → IsQueues (record s { links = t; prio = prio }) (upd q p xs)
  IsQueues-replace t prio xs ws ring same written members own others = record {
    rings = λ p' h. elim (eq-cases p' p) [
      | inl e ↦ rw (e, upd-same q p xs) ring
      | inr ne ↦ rw (upd-other q p xs p' ne) (
          IsRing-frame s.links t (head_of s.g_thread p') (q p') ws (queues.rings p' h) same (λ a m.
            elim (Bool-cases (has a ws)) [
              | inl w ↦ absurd (ne (written a w p' h m))
              | inr fine ↦ fine
            ]))
    ];
    apart = λ p1 p2 a h1 h2 m1 m2. elim (eq-cases p1 p) [
      | inl e1 ↦ elim (eq-cases p2 p) [
        | inl e2 ↦ e1 ∙ sym e2
        | inr n2 ↦
            e1
            ∙ sym (
                members a (rw (e1, upd-same q p xs) at m1) p2 h2
                  (rw (upd-other q p xs p2 n2) at m2))
      ]
      | inr n1 ↦ elim (eq-cases p2 p) [
        | inl e2 ↦
            members a (rw (e2, upd-same q p xs) at m2) p1 h1 (rw (upd-other q p xs p1 n1) at m1)
            ∙ sym e2
        | inr n2 ↦
            queues.apart p1 p2 a h1 h2 (rw (upd-other q p xs p1 n1) at m1)
              (rw (upd-other q p xs p2 n2) at m2)
      ]
    ];
    prios = λ p' a h m. elim (eq-cases p' p) [
      | inl e ↦ own a (rw (e, upd-same q p xs) at m) ∙ sym e
      | inr ne ↦ others p' a h ne (rw (upd-other q p xs p' ne) at m)
    ];
  }

has-rotated :
    (a t h : ℕ) (xs ys : List ℕ) → has a (h ∷ (xs ++ ys) ++ t ∷ []) ≡ has a (h ∷ xs ++ t ∷ ys)
has-rotated a t h xs ys =
    ground (arith, has-append a xs (t ∷ ys), has-append a (xs ++ ys) (t ∷ []), has-append a xs ys)

has-without :
    (a t h : ℕ) (xs ys : List ℕ)
    → has a (h ∷ xs ++ t ∷ ys) ≡ false
    → has a (t ∷ h ∷ xs ++ ys) ≡ false
has-without a t h xs ys out = ground (arith, has-append a xs (t ∷ ys), has-append a xs ys)

module _ (s : Sched) (q : ℕ → List ℕ) (queues : IsQueues s q) (p : ℕ) (low : p < 256) where
  -- `move_thread_to_back` takes the thread from its place in its queue to the end; the other
  -- threads keep their order and their queues.
  pub move_thread_to_back_lem :
      (t : ℕ) (xs ys : List ℕ)
      → q p ≡ xs ++ t ∷ ys
      → IsQueues (move_thread_to_back t s) (upd q p ((xs ++ ys) ++ t ∷ []))
  unfolding move_thread_to_back
  move_thread_to_back_lem t xs ys e =
      let h = head_of s.g_thread p in
      let ring : IsRing s.links h (xs ++ t ∷ ys) =
        subst (λ zs. IsRing s.links (head_of s.g_thread p) zs) e (queues.rings p low) in
      let mem : has t (xs ++ t ∷ ys) ≡ true = ground (arith, has-append t xs (t ∷ ys)) in
      let its_prio : s.prio t ≡ p = queues.prios p t low (rw e mem) in
      let removed = dequeue-remove t xs ys ring in
      let apart = has-remove t (h ∷ xs) ys ring.distinct in
      let out : has t (h ∷ xs ++ ys) ≡ false = ground (arith, has-append t xs ys) in
      let pos : t ≢ 0 = ground (arith, ring.not_null, has-append 0 xs (t ∷ ys)) in
      let back = enqueue_back-append t (xs ++ ys) removed.0 out pos in
      let own : (a : ℕ) → has a (h ∷ xs ++ t ∷ ys) ≡ true → Own s q queues p a =
        λ a m p' h' m'. queues.apart p' p a h' low m' (rw e m) in
      rw its_prio (
        IsQueues-replace s q queues p (enqueue_back h t (dequeue t s.links)) s.prio
          ((xs ++ ys) ++ t ∷ []) (h ∷ xs ++ t ∷ ys) back.0
          (λ a m.
            let one = removed.3 a m in
            let two = back.1 a (has-without a t h xs ys m) in (two.0 ∙ one.0, two.1 ∙ one.1))
          own (λ a m. own a (sym (has-rotated a t h xs ys) ∙ m))
          (λ a m. queues.prios p a low (
            rw e (
              ground (
                arith,
                has-append a xs (t ∷ ys),
                has-append a (xs ++ ys) (t ∷ []),
                has-append a xs ys,
              ))))
          (λ p' a h' ne m. queues.prios p' a h' m))

  -- A thread that is in no queue goes to the end of the queue of the priority.
  pub sched_add_thread_lem :
      (t : ℕ)
      → ((p' : ℕ) → p' < 256 → has t (head_of s.g_thread p' ∷ q p') ≡ false)
      → t ≢ 0
      → IsQueues (sched_add_thread t p s) (upd q p (q p ++ t ∷ []))
  unfolding sched_add_thread put
  sched_add_thread_lem t fresh pos =
      let h = head_of s.g_thread p in
      let back = enqueue_back-append t (q p) (queues.rings p low) (fresh p low) pos in
      let old : (a : ℕ) → (a == t) ≡ false → has a (q p ++ t ∷ []) ≡ true → has a (q p) ≡ true =
        λ a ne m. ground (arith, has-append a (q p) (t ∷ [])) in
      let own : (a : ℕ) → has a (t ∷ h ∷ q p) ≡ true → Own s q queues p a = λ a m p' h' m'.
        elim (eq-cases a t) [
          | inl e ↦ absurd (ground (arith, fresh p' h', e, m'))
          | inr ne ↦ queues.apart p' p a h' low m' (ground arith)
        ] in
      IsQueues-replace s q queues p (enqueue_back h t s.links) (put s.prio t p) (q p ++ t ∷ [])
        (t ∷ h ∷ q p) back.0 back.1 own (λ a m. own a (ground (arith, has-append a (q p) (t ∷ []))))
        (λ a m. elim (Bool-cases (a == t)) [
          | inl e ↦ rw e
          | inr ne ↦ rw ne (queues.prios p a low (old a ne m))
        ])
        (λ p' a h' ne m. elim (eq-cases a t) [
          | inl e ↦ absurd (ground (arith, fresh p' h', e, m))
          | inr other ↦ rw (ne→== a t other) (queues.prios p' a h' m)
        ])
