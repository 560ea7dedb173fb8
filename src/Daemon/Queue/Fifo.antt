-- ===== src/Daemon/Queue/Fifo.antt =====
-- The linked work queue implements a first-in first-out list of connections.
use qw.Base.{
  ℕ, zero, suc, ◌+◌, ◌-◌, true, false, List, [], ◌∷◌, ◌++◌, map, Option, none, some, ◌==◌,
  if◌then◌else◌, length, length-append, All, ◌≡◌, ◌≢◌, refl, ap, ◌∙◌, sym, arith, Bool-cases, inl,
  inr, ==_iff, ==_refl,
}
use mathlib.Core.Path.{subst}
use qw.Daemon.Queue.{
  Item, Store, Queue, write, link, link_last, put_at, is_full, enqueue_work, tail_behind, take_item,
  take_head, take_work,
}

-- An item, by its address and its connection.
abbrev pub Entry : Type 0
Entry = ℕ × ℕ

-- From a pointer on, the items are linked in this order.
abbrev pub Linked : Store → Option ℕ → List Entry → Type 0
Linked h p [] = p ≡ none
Linked h p (e ∷ es) =
    (p ≡ some e.0)
    × ((next : Option ℕ) × (h e.0 ≡ some (record { fd = e.1; next = next })) × Linked h next es)

abbrev pub last_of : List Entry → Option ℕ
last_of [] = none
last_of (e ∷ []) = some e.0
last_of (e ∷ f ∷ es) = last_of (f ∷ es)

-- No item stands at the address.
abbrev pub Off : ℕ → List Entry → Type 0
Off a es = All (λ e. e.0 ≢ a) es

abbrev pub Apart : List Entry → Type 0
Apart [] = Unit
Apart (e ∷ es) = Off e.0 es × Apart es

-- The queue holds these items: linked from the head, the tail at the last, counted.
pub record Represents (q : Queue) (es : List Entry) : Type 0 where
  pub linked : Linked q.store q.work_head es
  pub apart : Apart es
  pub tail : q.work_tail ≡ last_of es
  pub count : q.work_count ≡ length es

write_self : (h : Store) (a : ℕ) (v : Option Item) → write h a v a ≡ v
write_self h a v = ap (λ b. if b then v else h a) (==_refl a)

write_ne : (h : Store) (a x : ℕ) (v : Option Item) → x ≢ a → write h a v x ≡ h x
write_ne h a x v ne = elim (Bool-cases (x == a)) [
  | inl e ↦ absurd (ne ((==_iff x a).0 e))
  | inr e ↦ ap (λ b. if b then v else h x) e
]

-- Writing off the items leaves them linked.
Linked-write :
    (h : Store) (p : Option ℕ) (es : List Entry) (a : ℕ) (v : Option Item)
    → Off a es
    → Linked h p es
    → Linked (write h a v) p es
Linked-write h p [] a v off l = l
Linked-write h p (e ∷ es) a v off (at, (next, here, l)) =
    (at, (next, write_ne h a e.0 v off.0 ∙ here, Linked-write h next es a v off.1 l))

last_Off : (es : List Entry) (a t : ℕ) → last_of es ≡ some t → Off a es → t ≢ a
last_Off [] a t e off same = cc
last_Off (x ∷ []) a t e off same = let at : x.0 ≡ t = cc in off.0 (at ∙ same)
last_Off (x ∷ y ∷ es) a t e off same = last_Off (y ∷ es) a t e off.1 same

-- Linking a new item behind the last one.
Linked-link :
    (h : Store) (p : Option ℕ) (e : Entry) (es : List Entry) (t a fd : ℕ)
    → last_of (e ∷ es) ≡ some t
    → Apart (e ∷ es)
    → Off a (e ∷ es)
    → h a ≡ some (record { fd = fd; next = none })
    → Linked h p (e ∷ es)
    → Linked (write h t (link (h t) a)) p ((e ∷ es) ++ ((a, fd) ∷ []))
Linked-link h p e [] t a fd last apart off new (at, (next, here, l)) =
    let same : e.0 ≡ t = cc in
    let there : write h t (link (h t) a) e.0 ≡ some (record { fd = e.1; next = some a }) =
      ap (λ x. write h x (link (h x) a) e.0) (sym same)
      ∙ write_self h e.0 (link (h e.0) a)
      ∙ ap (λ o. link o a) here in
    (
      at,
      (
        some a,
        there,
        (refl, (none, write_ne h t a (link (h t) a) (λ f. off.0 (same ∙ sym f)) ∙ new, refl)),
      ),
    )
Linked-link h p e (f ∷ es) t a fd last apart off new (at, (next, here, l)) = (
  at,
  (
    next,
    write_ne h t e.0 (link (h t) a) (λ same. last_Off (f ∷ es) e.0 t last apart.0 (sym same))
        ∙ here,
    Linked-link h next f es t a fd last apart.1 off.1 new l,
  ),
)

last_some : (e : Entry) (es : List Entry) → (t : ℕ) × (last_of (e ∷ es) ≡ some t)
last_some e [] = (e.0, refl)
last_some e (f ∷ es) = last_some f es

last_of-snoc : (es : List Entry) (e : Entry) → last_of (es ++ (e ∷ [])) ≡ some e.0
last_of-snoc [] e = refl
last_of-snoc (x ∷ []) e = refl
last_of-snoc (x ∷ y ∷ es) e = last_of-snoc (y ∷ es) e

Apart-snoc : (es : List Entry) (a fd : ℕ) → Apart es → Off a es → Apart (es ++ ((a, fd) ∷ []))
Apart-snoc [] a fd apart off = (tt, tt)
Apart-snoc (e ∷ es) a fd apart off =
    (Off-snoc es e.0 a fd apart.0 (λ same. off.0 (sym same)), Apart-snoc es a fd apart.1 off.1)
  where
    Off-snoc : (es : List Entry) (b a fd : ℕ) → Off b es → a ≢ b → Off b (es ++ ((a, fd) ∷ []))
    Off-snoc [] b a fd off ne = (ne, tt)
    Off-snoc (e ∷ es) b a fd off ne = (off.0, Off-snoc es b a fd off.1 ne)

-- An address that `malloc` may return: no item stands there.
abbrev pub IsFree : Queue → List Entry → ℕ → Type 0
IsFree q es a = (q.store a ≡ none) × Off a es

abbrev new_item : ℕ → Option Item
new_item fd = some (record { fd = fd; next = none })

put_item-Represents :
    (q : Queue) (es : List Entry) (fd a : ℕ)
    → Represents q es
    → IsFree q es a
    → Represents (put_at q fd (some a)).0 (es ++ ((a, fd) ∷ []))
put_item-Represents q [] fd a r free =
    subst
      (λ t.
        Represents
          (record (link_last (record q { store = write q.store a (new_item fd) }) t a) {
            work_tail = some a;
            work_count = q.work_count + 1;
          })
          ((a, fd) ∷ []))
      (sym r.tail)
      (record {
        linked = (refl, (none, write_self q.store a (new_item fd), refl));
        apart = (tt, tt);
        tail = refl;
        count = omega (arith, r.count);
      })
put_item-Represents q (e ∷ es) fd a r free =
    let (t, last) = last_some e es in
    let h : Store = write q.store a (new_item fd) in
    subst
      (λ o.
        Represents
          (record (link_last (record q { store = h }) o a) {
            work_tail = some a;
            work_count = q.work_count + 1;
          })
          ((e ∷ es) ++ ((a, fd) ∷ [])))
      (sym (r.tail ∙ last))
      (record {
        linked =
            Linked-link h q.work_head e es t a fd last r.apart free.1
              (write_self q.store a (new_item fd))
              (Linked-write q.store q.work_head (e ∷ es) a (new_item fd) free.1 r.linked);
        apart = Apart-snoc (e ∷ es) a fd r.apart free.1;
        tail = sym (last_of-snoc (e ∷ es) (a, fd));
        count = omega (arith, r.count, length-append es ((a, fd) ∷ []));
      })

-- Below its limit, the queue takes a connection behind those it holds.
pub enqueue_work-Represents :
    (q : Queue) (es : List Entry) (fd a : ℕ)
    → Represents q es
    → IsFree q es a
    → is_full q ≡ false
    → ((enqueue_work q fd (some a)).1 ≡ true)
      × Represents (enqueue_work q fd (some a)).0 (es ++ ((a, fd) ∷ []))
unfolding enqueue_work
enqueue_work-Represents q es fd a r free room =
    subst
      (λ b.
        ((if b then (q, false) else put_at q fd (some a)).1 ≡ true)
        × Represents (if b then (q, false) else put_at q fd (some a)).0 (es ++ ((a, fd) ∷ [])))
      (sym room) (refl, put_item-Represents q es fd a r free)

-- The tail behind the first item of a queue.
tail_rest :
    (h : Store) (next tail : Option ℕ) (e : Entry) (es : List Entry)
    → Linked h next es
    → tail ≡ last_of (e ∷ es)
    → tail_behind next tail ≡ last_of es
tail_rest h next tail e [] l t = ap (λ o. tail_behind o tail) l
tail_rest h next tail e (f ∷ es) l t = ap (λ o. tail_behind o tail) l.0 ∙ t

-- A worker takes the connection that has waited longest, and the queue holds the others.
pub take_work-Represents :
    (q : Queue) (e : Entry) (es : List Entry)
    → Represents q (e ∷ es)
    → (rest : Queue) × (take_work q ≡ some (e.1, rest)) × Represents rest es
unfolding take_work
take_work-Represents q e es r =
    let (at, (next, here, l)) = r.linked in
    (
      record q {
        store = write q.store e.0 none;
        work_head = next;
        work_tail = tail_behind next q.work_tail;
        work_count = q.work_count - 1;
      },
      ap (take_head q) at ∙ ap (take_item q e.0) here,
      record {
        linked = Linked-write q.store next es e.0 none r.apart.0 l;
        apart = r.apart.1;
        tail = tail_rest q.store next q.work_tail e es l r.tail;
        count = omega (arith, r.count);
      },
    )

-- The connections that a number of turns take, in their order.
abbrev pub and_turn : Option (ℕ × Queue) → (Queue → List ℕ) → List ℕ
and_turn none more = []
and_turn (some (fd, q)) more = fd ∷ more q

unfoldable pub turns : ℕ → Queue → List ℕ
turns zero q = []
turns (suc n) q = and_turn (take_work q) (λ r. turns n r)

pub turns-Represents :
    (q : Queue) (es : List Entry) → Represents q es → turns (length es) q ≡ map (λ e. e.1) es
unfolding turns
turns-Represents q [] r = refl
turns-Represents q (e ∷ es) r =
    let (rest, taken, left) = take_work-Represents q e es r in
    ap (λ o. and_turn o (λ r. turns (length es) r)) taken
    ∙ ap (λ l. e.1 ∷ l) (turns-Represents rest es left)

-- A connection that the queue has room for is served, behind those that wait: as many turns of the
-- workers as there are then items take the connections in the order they came, this one last.
pub turns-enqueue_work :
    (q : Queue) (es : List Entry) (fd a : ℕ)
    → Represents q es
    → IsFree q es a
    → is_full q ≡ false
    → turns (length es + 1) (enqueue_work q fd (some a)).0 ≡ map (λ e. e.1) es ++ (fd ∷ [])
turns-enqueue_work q es fd a r free room =
    let put = enqueue_work-Represents q es fd a r free room in
    ap (λ n. turns n (enqueue_work q fd (some a)).0)
      (omega (arith, length-append es ((a, fd) ∷ [])))
    ∙ turns-Represents (enqueue_work q fd (some a)).0 (es ++ ((a, fd) ∷ [])) put.1
    ∙ map_snoc es
  where
    map_snoc :
        (es : List Entry) → map (λ e. e.1) (es ++ ((a, fd) ∷ [])) ≡ map (λ e. e.1) es ++ (fd ∷ [])
    map_snoc [] = refl
    map_snoc (e ∷ es) = ap (λ l. e.1 ∷ l) (map_snoc es)
