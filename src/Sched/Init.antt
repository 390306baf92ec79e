-- ===== src/Sched/Init.antt =====
-- The start of the scheduler.
use opsys.Base.{
  ℕ, zero, suc, ◌<◌, ◌≡◌, refl, ◌≢◌, false, List, [], ◌∷◌, eq-cases, inl, inr, arith, ne→==, eq→==,
  length, some,
}
use opsys.LinkedList.{Links, put, init_head, init_item}
use opsys.LinkedList.Chain.{has, IsRing}
use opsys.Timer.{Timer, alarm_init, timer_add_alarm}
use opsys.Timer.Update.{Added, timer_add_alarm-Added}
use opsys.Sched.{Sched, Run, done, head_of, init_heads, sched_init, sched_add_thread, sched_timeout}
use opsys.Sched.Queues.{IsQueues, IsRing-frame, upd, sched_add_thread_lem}

init_heads_lem :
    (n g p : ℕ) (l : Links)
    → p < n
    → ((init_heads n g l).next (head_of g p) ≡ head_of g p)
      × ((init_heads n g l).prev (head_of g p) ≡ head_of g p)
unfolding init_heads init_head put
init_heads_lem zero g p l h = absurd (omega arith)
init_heads_lem (suc n) g p l h = elim (eq-cases p n) [
  | inl e ↦ rw e (rw (eq→== (head_of g n) (head_of g n) refl) (refl, refl))
  | inr ne ↦
      rw (ne→== (head_of g p) (head_of g n) (omega arith)) (init_heads_lem n g p l (omega arith))
]

-- The state of the queues when the heads are made.
pub init_heads-IsQueues :
    (s : Sched)
    → s.g_thread ≢ 0
    → IsQueues (record s { links = init_heads 256 s.g_thread s.links }) (λ p. [])
init_heads-IsQueues s pos = record {
  rings = λ p low.
      let fields = init_heads_lem 256 s.g_thread p s.links low in
      record { chain = fields; distinct = (refl, tt); not_null = ground (arith, pos) };
  apart = λ p p' a h h' m m'. ground arith;
  prios = λ p a h m. absurd (ground arith);
}

alarm_init-IsRing :
    (alarm : ℕ) (t : Timer) (xs : List ℕ)
    → IsRing t.links t.head xs
    → has alarm (t.head ∷ xs) ≡ false
    → IsRing (alarm_init alarm t).links t.head xs
unfolding alarm_init init_item put
alarm_init-IsRing alarm t xs r out =
    IsRing-frame t.links (init_item alarm t.links) t.head xs (alarm ∷ []) r (λ a m. ground arith)
      (λ a m. elim (eq-cases a alarm) [
        | inl e ↦ absurd (ground (arith, e, out, m))
        | inr ne ↦ ground (arith, ne)
      ])

-- The state after the start: the idle thread is current and alone in the queues, with priority 0,
-- and the alarm of the scheduler is in the list of the timer.
pub record Started (s : Sched) (idle : ℕ) (alarms : List ℕ) (r : Run Sched) : Type 0 where
  pub s' : Sched
  pub returns : r ≡ done s'
  pub queues : IsQueues s' (upd (λ p. []) 0 (idle ∷ []))
  pub current : s'.current 0 ≡ idle
  pub added : Added (alarm_init s.g_alarm s.timer) s.g_alarm sched_timeout alarms (some s'.timer)

sched_init-some :
    (fuel idle : ℕ) (s : Sched) {timer : Timer}
    → idle ≢ 0
    → timer_add_alarm fuel s.g_alarm sched_timeout (alarm_init s.g_alarm s.timer) ≡ some timer
    → sched_init fuel idle s
      ≡ done (
          sched_add_thread idle 0 (record s {
            current = put s.current 0 idle;
            links = init_heads 256 s.g_thread s.links;
            timer = timer;
          }))
unfolding sched_init
sched_init-some fuel idle s pos e = rw (ne→== idle 0 pos, e, sched_init) refl

-- For an idle thread that is not NULL and is no list head, an alarm that is not in the timer's
-- list of alarms, and more fuel than this list has alarms: `sched_init` ends, makes the list
-- heads, and leaves the idle thread as current and as the only one in the queues, with priority
-- 0; the alarm of the scheduler is set by `timer_add_alarm`.
pub sched_init_lem :
    (s : Sched) (fuel idle : ℕ) (alarms : List ℕ)
    → s.g_thread ≢ 0
    → idle ≢ 0
    → ((p : ℕ) → p < 256 → idle ≢ head_of s.g_thread p)
    → IsRing s.timer.links s.timer.head alarms
    → has s.g_alarm (s.timer.head ∷ alarms) ≡ false
    → s.g_alarm ≢ 0
    → length alarms < fuel
    → Started s idle alarms (sched_init fuel idle s)
unfolding sched_add_thread put alarm_init
sched_init_lem s fuel idle alarms g_pos pos no_head ring out alarm_pos enough =
    let ready = alarm_init-IsRing s.g_alarm s.timer alarms ring out in
    let added =
      timer_add_alarm-Added (alarm_init s.g_alarm s.timer) fuel s.g_alarm sched_timeout alarms ready
        enough out alarm_pos in
    let heads : Sched = record s {
      current = put s.current 0 idle;
      links = init_heads 256 s.g_thread s.links;
      timer = added.t';
    } in
    let empty : IsQueues heads (λ p. []) =
      let made = init_heads-IsQueues s g_pos in
      record { rings = made.rings; apart = made.apart; prios = made.prios } in
    record {
      s' = sched_add_thread idle 0 heads;
      returns = sched_init-some fuel idle s pos added.returns;
      queues =
          sched_add_thread_lem heads (λ p. []) empty 0 (omega arith) idle
            (λ p low. ground (arith, ne→== idle (head_of s.g_thread p) (no_head p low))) pos;
      current = refl;
      added = record {
        t' = added.t';
        returns = refl;
        stamps = added.stamps;
        alarms = added.alarms;
        programmed = added.programmed;
        no_calls = added.no_calls;
        same_head = added.same_head;
      };
    }
