-- ===== src/Daemon/Queue.antt =====
-- The work queue of tools/qwen3-engine-daemon.c: `enqueue_work` and the part of `worker_thread` that takes
-- a connection. The items are in a store, an address being a number. A worker frees its item when the
-- connection has been served; nobody reads it from the queue before that, so the store has no item there
-- from the moment it is taken.
pub mod Fifo
use qw.Base.{
  ℕ, zero, suc, ◌+◌, ◌-◌, Bool, true, false, ◌&&◌, not, List, [], ◌∷◌, Option, none, some, leb,
  ◌==◌, if◌then◌else◌,
}

-- `work_item_t`.
pub record Item : Type 0 where
  pub fd : ℕ
  pub next : Option ℕ

-- What `malloc` and `free` have left at an address.
abbrev pub Store : Type 0
Store = ℕ → Option Item

-- The queue's part of `daemon_state_t`.
pub record Queue : Type 0 where
  pub store : Store
  pub work_head : Option ℕ
  pub work_tail : Option ℕ
  pub work_count : ℕ
  pub max_work_queue : ℕ

abbrev pub write : Store → ℕ → Option Item → Store
write h a v x = if x == a then v else h x

-- `p->next = a`.
abbrev pub link : Option Item → ℕ → Option Item
link none a = none
link (some item) a = some (record item { next = some a })

-- The new item behind the last one, or at the head.
abbrev pub link_last : Queue → Option ℕ → ℕ → Queue
link_last q none a = record q { work_head = some a }
link_last q (some t) a = record q { store = write q.store t (link (q.store t) a) }

abbrev pub put_item : Queue → ℕ → ℕ → Queue
put_item q fd a =
    link_last (record q { store = write q.store a (some (record { fd = fd; next = none })) })
      q.work_tail a

abbrev pub put_at : Queue → ℕ → Option ℕ → Queue × Bool
put_at q fd none = (q, false)
put_at q fd (some a) =
    (record (put_item q fd a) { work_tail = some a; work_count = q.work_count + 1 }, true)

abbrev pub is_full : Queue → Bool
is_full q = not (q.max_work_queue == 0) && leb q.max_work_queue q.work_count

-- Where the queue is full or `malloc` returns NULL, the connection is dropped and closed: false.
unfoldable pub enqueue_work : Queue → ℕ → Option ℕ → Queue × Bool
enqueue_work q fd a = if is_full q then (q, false) else put_at q fd a

-- The tail behind an item that was taken.
abbrev pub tail_behind : Option ℕ → Option ℕ → Option ℕ
tail_behind none tail = none
tail_behind (some a) tail = tail

abbrev pub take_item : Queue → ℕ → Option Item → Option (ℕ × Queue)
take_item q a none = none
take_item q a (some item) = some (
  item.fd,
  record q {
    store = write q.store a none;
    work_head = item.next;
    work_tail = tail_behind item.next q.work_tail;
    work_count = q.work_count - 1;
  },
)

-- A worker's turn: the connection at the head, with the queue behind it; `none` where it waits.
abbrev pub take_head : Queue → Option ℕ → Option (ℕ × Queue)
take_head q none = none
take_head q (some a) = take_item q a (q.store a)

unfoldable pub take_work : Queue → Option (ℕ × Queue)
take_work q = take_head q q.work_head
