-- ===== src/Sched/Select.antt =====
-- The searches of the run queues: the thread with the given ids, and the next thread to run.
use opsys.Base.{
  ℕ, zero, suc, ◌+◌, ◌<◌, ◌≤◌, ◌≡◌, refl, ◌∙◌, Bool, true, false, ◌&&◌, List, [], ◌∷◌, ◌++◌, ◌==◌,
  if◌then◌else◌, Bool-cases, eq-cases, ap, Option, none, some, ◌⊎◌, inl, inr, arith, eq→==, length,
  Option-cases,
}
use mathlib.Core.Option.{some-injective}
use opsys.LinkedList.{Links}
use opsys.LinkedList.Chain.{has, Chain}
use opsys.Task.{is_ready}
use opsys.Sched.{
  Sched, Run, done, halt, head_of, find_in, find_at, search_from, sched_search_thread, select_below,
  sched_select_thread,
}
use opsys.Sched.Queues.{IsQueues}

-- The first element that passes a test.
abbrev first_that : (ℕ → Bool) → List ℕ → Option ℕ
first_that test [] = none
first_that test (x ∷ xs) = if test x then some x else first_that test xs

-- No element passes the test.
abbrev pub NonePass : (ℕ → Bool) → List ℕ → Type 0
NonePass test xs = (a : ℕ) → has a xs ≡ true → test a ≡ false

-- The first element that passes the test, between the elements before and behind it.
pub record FirstPass (test : ℕ → Bool) (xs : List ℕ) (t : ℕ) : Type 0 where
  pub before : List ℕ
  pub behind : List ℕ
  pub splits : xs ≡ before ++ t ∷ behind
  pub passes : test t ≡ true
  pub others : NonePass test before

module _ (test : ℕ → Bool) where
  first_that-none : (xs : List ℕ) → first_that test xs ≡ none → NonePass test xs
  first_that-none [] e a m = absurd (ground arith)
  first_that-none (x ∷ xs) e a m = elim (Bool-cases (test x)) [
    | inl hit ↦ absurd (ground arith)
    | inr miss ↦ elim (eq-cases a x) [
      | inl same ↦ rw same miss
      | inr other ↦ first_that-none xs (rw miss at e) a (ground arith)
    ]
  ]

  first_that-some : (xs : List ℕ) (t : ℕ) → first_that test xs ≡ some t → FirstPass test xs t
  first_that-some [] t e = absurd (ground arith)
  first_that-some (x ∷ xs) t e = elim (Bool-cases (test x)) [
    | inl hit ↦
        let same : x ≡ t = some-injective x t (rw hit at e) in
        record {
          before = [];
          behind = xs;
          splits = rw same refl;
          passes = rw same at hit;
          others = λ a m. absurd (ground arith);
        }
    | inr miss ↦
        let rest = first_that-some xs t (rw miss at e) in
        record {
          before = x ∷ rest.before;
          behind = rest.behind;
          splits = ap (λ zs. x ∷ zs) rest.splits;
          passes = rest.passes;
          others = λ a m. elim (eq-cases a x) [
            | inl same ↦ rw same miss
            | inr other ↦ rest.others a (ground arith)
          ];
        }
  ]

  find_in_lem :
      (l : Links) (h fuel a : ℕ) (xs : List ℕ)
      → Chain l a xs h
      → has h xs ≡ false
      → length xs < fuel
      → find_in test fuel l h (l.next a) ≡ done (first_that test xs)
  unfolding find_in
  find_in_lem l h zero a xs c out f = absurd (omega arith)
  find_in_lem l h (suc fuel) a [] c out f = rw (c.0, eq→== h h refl)
  find_in_lem l h (suc fuel) a (x ∷ xs) c out f =
      let more : (x == h) ≡ false = ground arith in
      let rest = find_in_lem l h fuel x xs c.2 (ground arith) (omega arith) in
      elim (Bool-cases (test x)) [ inl e ↦ rw (c.0, more, e) | inr e ↦ rw (c.0, more, e) rest ]

-- The outcome of a search through the queues of the priorities from `lo` to below `hi`.
pub record Chosen (test : ℕ → Bool) (q : ℕ → List ℕ) (lo hi : ℕ) (r : Run ℕ) : Type 0 where
  pub thread : ℕ
  pub prio : ℕ
  pub returns : r ≡ done thread
  pub above : lo ≤ prio
  pub below : prio < hi
  pub first : FirstPass test (q prio) thread

-- No thread of these priorities passes the test.
abbrev pub NoneIn : (ℕ → Bool) → (ℕ → List ℕ) → ℕ → ℕ → Type 0
NoneIn test q lo hi = (p : ℕ) → lo ≤ p → p < hi → NonePass test (q p)

-- The tests of the two searches.
abbrev pub ready_in : Sched → ℕ → Bool
ready_in s t = is_ready (s.state t)

abbrev pub has_ids : Sched → ℕ → ℕ → ℕ → Bool
has_ids s taskid tcbid t = (s.id t == tcbid) && (s.taskid t == taskid)

module _ (s : Sched) (q : ℕ → List ℕ) (fuel : ℕ) (queues : IsQueues s q)
    (enough : (p : ℕ) → p < 256 → length (q p) < fuel) where
  find_at_lem :
      (test : ℕ → Bool) (p : ℕ) → p < 256 → find_at test fuel s p ≡ done (first_that test (q p))
  find_at_lem test p low =
      let r = queues.rings p low in
      let h = head_of s.g_thread p in
      find_in_lem test s.links h fuel h (q p) r.chain r.distinct.0 (enough p low)

  select_below-end : select_below fuel 0 s ≡ halt
  unfolding select_below
  select_below-end = refl

  select_below-here :
      (n t : ℕ)
      → find_at (ready_in s) fuel s n ≡ done (some t)
      → select_below fuel (suc n) s ≡ done t
  unfolding select_below
  select_below-here n t e = rw (e, select_below) refl

  select_below-next :
      (n : ℕ)
      → find_at (ready_in s) fuel s n ≡ done none
      → select_below fuel (suc n) s ≡ select_below fuel n s
  unfolding select_below
  select_below-next n e = rw (e, select_below) refl

  select_below_lem :
      (n : ℕ)
      → n ≤ 256
      → ((c : Chosen (ready_in s) q 0 n (select_below fuel n s)) × NoneIn
            (ready_in s)
            q
            (suc c.prio)
            n)
        ⊎ ((select_below fuel n s ≡ halt) × NoneIn (ready_in s) q 0 n)
  select_below_lem zero low = inr (select_below-end, λ p h k. absurd (omega arith))
  select_below_lem (suc n) low =
      let here = find_at_lem (ready_in s) n (omega arith) in
      elim (Option-cases (first_that (ready_in s) (q n))) [
        | inr (t, found) ↦ inl (
          record {
            thread = t;
            prio = n;
            returns = select_below-here n t (here ∙ ap done found);
            above = omega arith;
            below = omega arith;
            first = first_that-some (ready_in s) (q n) t found;
          },
          λ p h k. absurd (omega arith),
        )
        | inl none_here ↦
            let empty = first_that-none (ready_in s) (q n) none_here in
            let next = select_below-next n (here ∙ ap done none_here) in
            let all : (p : ℕ) (lo : ℕ)
                → (lo ≤ p)
                → p < suc n
                → NoneIn (ready_in s) q lo n
                → NonePass (ready_in s) (q p) =
              λ p lo h k below. elim (eq-cases p n) [
                | inl e ↦ rw e empty
                | inr e ↦ below p h (omega arith)
              ] in
            elim (select_below_lem n (omega arith)) [
              | inl (c, higher) ↦ inl (
                record {
                  thread = c.thread;
                  prio = c.prio;
                  returns = next ∙ c.returns;
                  above = c.above;
                  below = omega (arith, c.below);
                  first = c.first;
                },
                λ p h k. all p (suc c.prio) h k higher,
              )
              | inr (halts, none_below) ↦ inr (next ∙ halts, λ p h k. all p 0 h k none_below)
            ]
      ]

  -- With more fuel than threads in any queue, `sched_select_thread` ends: it returns a ready
  -- thread such that no thread before it in its queue and none of a higher priority is ready,
  -- or it reaches the assertion at its end, and then no thread is ready at all.
  pub sched_select_thread_lem :
      ((c : Chosen (ready_in s) q 0 256 (sched_select_thread fuel s)) × NoneIn
          (ready_in s)
          q
          (suc c.prio)
          256)
      ⊎ ((sched_select_thread fuel s ≡ halt) × NoneIn (ready_in s) q 0 256)
  unfolding sched_select_thread
  sched_select_thread_lem = select_below_lem 256 (omega arith)

  search_from-here :
      (test : ℕ → Bool) (left prio t : ℕ)
      → find_at test fuel s prio ≡ done (some t)
      → search_from test fuel (suc left) prio s ≡ done t
  unfolding search_from
  search_from-here test left prio t e = rw (e, search_from) refl

  search_from-next :
      (test : ℕ → Bool) (left prio : ℕ)
      → find_at test fuel s prio ≡ done none
      → search_from test fuel (suc left) prio s ≡ search_from test fuel left (prio + 1) s
  unfolding search_from
  search_from-next test left prio e = rw (e, search_from) refl

  search_from-end : (test : ℕ → Bool) (prio : ℕ) → search_from test fuel 0 prio s ≡ done 0
  unfolding search_from
  search_from-end test prio = refl

  search_from_lem :
      (test : ℕ → Bool) (left lo hi : ℕ)
      → lo + left ≡ hi
      → hi ≤ 256
      → ((c : Chosen test q lo hi (search_from test fuel left lo s)) × NoneIn test q lo c.prio)
        ⊎ ((search_from test fuel left lo s ≡ done 0) × NoneIn test q lo hi)
  search_from_lem test zero lo hi e low =
      inr (search_from-end test lo, λ p h k. absurd (omega arith))
  search_from_lem test (suc left) lo hi e low =
      let here = find_at_lem test lo (omega arith) in
      elim (Option-cases (first_that test (q lo))) [
        | inr (t, found) ↦ inl (
          record {
            thread = t;
            prio = lo;
            returns = search_from-here test left lo t (here ∙ ap done found);
            above = omega arith;
            below = omega arith;
            first = first_that-some test (q lo) t found;
          },
          λ p h k. absurd (omega arith),
        )
        | inl none_here ↦
            let empty = first_that-none test (q lo) none_here in
            let next = search_from-next test left lo (here ∙ ap done none_here) in
            let all : (p : ℕ) (top : ℕ)
                → lo ≤ p
                → p < top
                → NoneIn test q (lo + 1) top
                → NonePass test (q p) =
              λ p top h k above. elim (eq-cases p lo) [
                | inl same ↦ rw same empty
                | inr other ↦ above p (omega arith) k
              ] in
            elim (search_from_lem test left (lo + 1) hi (omega arith) low) [
              | inl (c, lower) ↦ inl (
                record {
                  thread = c.thread;
                  prio = c.prio;
                  returns = next ∙ c.returns;
                  above = omega (arith, c.above);
                  below = c.below;
                  first = c.first;
                },
                λ p h k. all p c.prio h k lower,
              )
              | inr (null, none_above) ↦ inr (next ∙ null, λ p h k. all p hi h k none_above)
            ]
      ]

  -- With more fuel than threads in any queue, `sched_search_thread` ends: it returns the first
  -- thread with the two ids, by priority from 0 on and by place in the queue, or NULL, and then
  -- no queue holds a thread with these ids.
  pub sched_search_thread_lem :
      (taskid tcbid : ℕ)
      → ((c : Chosen (has_ids s taskid tcbid) q 0 256 (sched_search_thread fuel taskid tcbid s))
          × NoneIn (has_ids s taskid tcbid) q 0 c.prio)
        ⊎ ((sched_search_thread fuel taskid tcbid s ≡ done 0)
            × NoneIn (has_ids s taskid tcbid) q 0 256)
  unfolding sched_search_thread
  sched_search_thread_lem taskid tcbid =
      search_from_lem (has_ids s taskid tcbid) 256 0 256 (omega arith) (omega arith)
