-- ===== src/Ipc/Queue.antt =====
-- `ipc_recv` of src/kernel/bin/ipc.c takes the first message of the queue.
use opsys.Base.{
  ℕ, ◌≤◌, ◌<◌, ◌≡◌, refl, ◌≢◌, ap, ◌⊎◌, inl, inr, true, false, Bool-cases, eq→==, ne→==, ltb,
  ltb→lt, ltb-false→le, List, [], ◌∷◌, ◌++◌, Result, ok, err, bit_and, bit_or, einval, eagain,
  arith,
}
use opsys.LinkedList.{Links, is_empty, first, dequeue, set_next, set_prev}
use opsys.LinkedList.Chain.{IsRing}
use opsys.LinkedList.Dequeue.{dequeue-remove, observers_lem}
use opsys.IpcMsg.{IpcMsg}
use opsys.Ipc.{Ipc, is_mmap, set_msg, deliver, ipc_recv}

-- Both sides use the mmap mode, and the receiver offers too few pages: the message is gone.
pub record TooShort (m i : IpcMsg) (t : Ipc) (r : Result (Unit {0}) × Ipc) : Type 0 where
  pub mode : is_mmap (bit_and m.flags i.flags) ≡ true
  pub fewer : m.msg1 < i.msg1
  pub lost : r ≡ (err eagain, t)

-- Both sides use the mmap mode: the pages are mapped once, and the message says how many.
pub record Mapped (m i : IpcMsg) (msg rcv : ℕ) (t : Ipc) (r : Result (Unit {0}) × Ipc)
    : Type 0 where
  pub mode : is_mmap (bit_and m.flags i.flags) ≡ true
  pub enough : i.msg1 ≤ m.msg1
  pub result : r.0 ≡ ok tt
  pub same_links : r.1.links ≡ t.links
  pub maps :
      r.1.maps
      ≡ t.maps
        ++ record {
          dst = rcv;
          dst_pgindex = m.msg0;
          src = i.snd;
          src_pgindex = i.msg0;
          pgcount = i.msg1;
          flags = 3;
        }
          ∷ []
  pub sender : (r.1.msg msg).snd ≡ i.snd
  pub count : (r.1.msg msg).msg1 ≡ i.msg1
  pub same_state : r.1.state ≡ t.state

-- The sides use different modes: the message is gone.
pub record Mixed (m i : IpcMsg) (t : Ipc) (r : Result (Unit {0}) × Ipc) : Type 0 where
  pub neither_both : is_mmap (bit_and m.flags i.flags) ≡ false
  pub one_of_them : is_mmap (bit_or m.flags i.flags) ≡ true
  pub lost : r ≡ (err einval, t)

-- Neither side uses the mmap mode: the whole message is copied into the receiver's, its list node
-- included, and no other node is written.
pub record Copied (m i : IpcMsg) (msg msgin : ℕ) (t : Ipc) (r : Result (Unit {0}) × Ipc)
    : Type 0 where
  pub mode : is_mmap (bit_or m.flags i.flags) ≡ false
  pub result : r.0 ≡ ok tt
  pub fields : r.1.msg msg ≡ i
  pub no_maps : r.1.maps ≡ t.maps
  pub links :
      r.1.links ≡ set_next msg (t.links.next msgin) (set_prev msg (t.links.prev msgin) t.links)
  pub same_state : r.1.state ≡ t.state

abbrev pub Delivered : (m i : IpcMsg) (msg rcv msgin : ℕ) → Ipc → Result (Unit {0}) × Ipc → Type 0
Delivered m i msg rcv msgin t r =
    TooShort m i t r ⊎ Mapped m i msg rcv t r ⊎ Mixed m i t r ⊎ Copied m i msg msgin t r

set_msg_self : (f : ℕ → IpcMsg) (a : ℕ) (v : IpcMsg) → set_msg f a v a ≡ v
unfolding set_msg
set_msg_self f a v = rw (eq→== a a refl)

deliver_lem :
    (msg rcv msgin : ℕ) (t : Ipc)
    → Delivered (t.msg msg) (t.msg msgin) msg rcv msgin t (deliver msg rcv msgin t)
unfolding deliver
deliver_lem msg rcv msgin t =
    let m = t.msg msg in
    let i = t.msg msgin in
    elim (Bool-cases (is_mmap (bit_and m.flags i.flags))) [
      | inl both ↦ elim (Bool-cases (ltb m.msg1 i.msg1)) [
        | inl short ↦ inl (record {
          mode = both;
          fewer = ltb→lt m.msg1 i.msg1 short;
          lost = rw (both, short) refl;
        })
        | inr fits ↦ inr (
            inl (record {
              mode = both;
              enough = ltb-false→le m.msg1 i.msg1 fits;
              result = rw (both, fits) refl;
              same_links = rw (both, fits) refl;
              maps = rw (both, fits) refl;
              sender = rw (both, fits) (ap (λ (x : IpcMsg). x.snd) (set_msg_self t.msg msg _));
              count = rw (both, fits) (ap (λ (x : IpcMsg). x.msg1) (set_msg_self t.msg msg _));
              same_state = rw (both, fits) refl;
            }))
      ]
      | inr apart ↦ elim (Bool-cases (is_mmap (bit_or m.flags i.flags))) [
        | inl mixed ↦ inr (
            inr (
              inl (record {
                neither_both = apart;
                one_of_them = mixed;
                lost = rw (apart, mixed) refl;
              })))
        | inr plain ↦ inr (
            inr (
              inr (record {
                mode = plain;
                result = rw (apart, plain) refl;
                fields = rw (apart, plain) (set_msg_self t.msg msg (t.msg msgin));
                no_maps = rw (apart, plain) refl;
                links = rw (apart, plain) refl;
                same_state = rw (apart, plain) refl;
              })))
      ]
    ]

some_message :
    (l : Links) (head x : ℕ) (xs : List ℕ) → IsRing l head (x ∷ xs) → is_empty l head ≡ false
unfolding is_empty
some_message l head x xs ring = ground (arith, ring.chain, ring.distinct)

-- A receiver with messages does not wait: `ipc_recv` takes the first message off its queue and
-- keeps the others in their order. What it does with the message depends on the modes of the two
-- sides. If only one of them uses the mmap mode, or both do and the receiver offers too few pages,
-- it returns an error and does no more. If both do otherwise, it maps the pages once and changes no
-- link. If neither does, it copies the message, with the pointers of its list node over those of the
-- receiver's message, and changes no other link.
pub ipc_recv_lem :
    (switch : Ipc → Ipc) (msg rcv msgin : ℕ) (xs : List ℕ) (s : Ipc)
    → IsRing s.links (s.ipcin rcv) (msgin ∷ xs)
    → IsRing (dequeue msgin s.links) (s.ipcin rcv) xs
      × Delivered
          (s.msg msg)
          (s.msg msgin)
          msg
          rcv
          msgin
          (record s { links = dequeue msgin s.links })
          (ipc_recv switch msg rcv s)
unfolding ipc_recv
ipc_recv_lem switch msg rcv msgin xs s ring =
    let t : Ipc = record s { links = dequeue msgin s.links } in
    let some_left : is_empty s.links (s.ipcin rcv) ≡ false =
      some_message s.links (s.ipcin rcv) msgin xs ring in
    let front : first s.links (s.ipcin rcv) ≡ msgin = (observers_lem (msgin ∷ xs) ring).1 in
    let pos : msgin ≢ 0 = ground (arith, ring.not_null) in
    (
      (dequeue-remove msgin [] xs ring).0,
      rw some_left (rw (some_left, front) (rw (ne→== msgin 0 pos) (deliver_lem msg rcv msgin t))),
    )
