-- ===== src/Authorization/Lock/Exclusion.antt =====
-- Mutual exclusion, order and wake-ups of the lock.
use mihver.Prelude.{
  any, ◌-◌, ◌<◌, subst, true, false, ℕ, ◌+◌, ◌≡◌, refl, ap, ◌∙◌, sym, Bool, true, false, not, ◌&&◌,
  ◌||◌, List, [], ◌∷◌, ◌++◌, arith, All, length, ltb, Bool-cases, inl, inr,
}
use mihver.Authorization.Lock.{
  Waiter, Lock, is_read, next_writes, Drained, admit_readers, System, drain_free, drain, remove,
  same_waiter, acquire, release, fresh, Turn, arrives, leaves, turn, turns,
}

abbrev pub Reader : Waiter → Type 0
Reader w = is_read w.access ≡ true

-- Who holds the lock: a single writer and no reader, or the counted readers.
abbrev pub Holds : Bool → ℕ → List Waiter → Type 0
Holds true readers [] = ⊥
Holds true readers (w ∷ []) = (readers ≡ 0) × (is_read w.access ≡ false)
Holds true readers (w ∷ x ∷ ws) = ⊥
Holds false readers ws = (length ws ≡ readers) × All Reader ws

abbrev is_empty : List Waiter → Bool
is_empty [] = true
is_empty (w ∷ ws) = false

-- Nobody waits without a reason: the queue is empty, or a writer holds the lock, or readers do and
-- a writer is next.
pub record Settled (l : Lock) : Type 0 where
  pub reason : (is_empty l.queue || l.writer || ltb 0 l.readers && next_writes l.queue) ≡ true

pub record Valid (s : System) : Type 0 where
  pub exclusive : Holds s.lock.writer s.lock.readers s.holders
  pub settled : Settled s.lock
  pub in_order : s.admitted ++ s.lock.queue ≡ s.arrived

-- What `#drain` does to the holders and the queue.
record DrainOk (holders : List Waiter) (queue : List Waiter) (d : Drained) : Type 0 where
  exclusive : Holds d.lock.writer d.lock.readers (holders ++ d.resolved)
  settled : Settled d.lock
  in_order : d.resolved ++ d.lock.queue ≡ queue

All-snoc : (ws : List Waiter) (w : Waiter) → All Reader ws → Reader w → All Reader (ws ++ w ∷ [])
All-snoc [] w h k = (k, tt)
All-snoc (x ∷ ws) w h k = (h.0, All-snoc ws w h.1 k)

length-snoc : (ws : List Waiter) (w : Waiter) → length (ws ++ w ∷ []) ≡ length ws + 1
length-snoc [] w = refl
length-snoc (x ∷ ws) w = omega (arith, length-snoc ws w)

append_nil : (ws : List Waiter) → ws ++ [] ≡ ws
append_nil [] = refl
append_nil (w ∷ ws) = ap (◌∷◌ w) (append_nil ws)

append_assoc : (xs ys zs : List Waiter) → (xs ++ ys) ++ zs ≡ xs ++ (ys ++ zs)
append_assoc [] ys zs = refl
append_assoc (x ∷ xs) ys zs = ap (◌∷◌ x) (append_assoc xs ys zs)

admit_readers-DrainOk :
    (readers : ℕ) (queue holders : List Waiter)
    → length holders ≡ readers
    → All Reader holders
    → (is_empty queue || ltb 0 readers || not (next_writes queue)) ≡ true
    → DrainOk holders queue (admit_readers readers queue)
unfolding admit_readers next_writes
admit_readers-DrainOk readers [] holders n h k = record {
  exclusive = rw (append_nil holders) (n, h);
  settled = record { reason = refl };
  in_order = refl;
}
admit_readers-DrainOk readers (w ∷ queue) holders n h k = elim (Bool-cases (is_read w.access)) [
  | inl r ↦
      let rest : DrainOk (holders ++ w ∷ []) queue (admit_readers (readers + 1) queue) =
        admit_readers-DrainOk (readers + 1) queue (holders ++ w ∷ [])
          (length-snoc holders w ∙ ap (λ x. x + 1) n) (All-snoc holders w h r) (ground arith) in
      rw r (record {
        exclusive =
            subst
              (Holds (admit_readers (readers + 1) queue).lock.writer
                (admit_readers (readers + 1) queue).lock.readers)
              (append_assoc holders (w ∷ []) (admit_readers (readers + 1) queue).resolved)
              rest.exclusive;
        settled = rest.settled;
        in_order = ap (◌∷◌ w) rest.in_order;
      })
  | inr r ↦ rw r (record {
    exclusive = rw (append_nil holders) (n, h);
    settled = record { reason = ground arith };
    in_order = refl;
  })
]

drain_free-DrainOk :
    (readers : ℕ) (queue holders : List Waiter)
    → length holders ≡ readers
    → All Reader holders
    → (ltb 0 readers && next_writes queue) ≡ false
    → DrainOk holders queue (drain_free readers queue)
unfolding drain_free next_writes
drain_free-DrainOk readers [] holders n h k = admit_readers-DrainOk readers [] holders n h refl
drain_free-DrainOk readers (w ∷ queue) holders n h k = elim (Bool-cases (is_read w.access)) [
  | inl r ↦
      rw r
        (admit_readers-DrainOk readers (w ∷ queue) holders n h (unfold next_writes in ground arith))
  | inr r ↦ rw r (record {
    exclusive = alone holders r n (ground arith);
    settled = record { reason = ground arith };
    in_order = refl;
  })
]
  where
    alone :
        (hs : List Waiter)
        → is_read w.access ≡ false
        → length hs ≡ readers
        → readers ≡ 0
        → Holds true readers (hs ++ w ∷ [])
    alone [] r e z = (z, r)
    alone (x ∷ hs) r e z = absurd (omega (arith, e, z))

drain-DrainOk :
    (l : Lock) (holders : List Waiter)
    → Holds l.writer l.readers holders
    → DrainOk holders l.queue (drain l)
unfolding drain
drain-DrainOk l holders h = elim (Bool-cases (l.writer || ltb 0 l.readers && next_writes l.queue)) [
  | inl b ↦ rw b (record {
    exclusive = rw (append_nil holders) h;
    settled = record { reason = ground arith };
    in_order = refl;
  })
  | inr b ↦
      let f : Holds false l.readers holders = subst (λ x. Holds x l.readers holders) (free b) h in
      rw b (drain_free-DrainOk l.readers l.queue holders f.0 f.1 (ground arith))
]
  where
    free : (l.writer || ltb 0 l.readers && next_writes l.queue) ≡ false → l.writer ≡ false
    free b = ground arith

remove-Holds :
    (w : Waiter) (ws : List Waiter)
    → All Reader ws
    → any (λ x. same_waiter x w) ws ≡ true
    → (length (remove w ws) ≡ length ws - 1) × (All Reader (remove w ws)) × (0 < length ws)
unfolding remove any
remove-Holds w [] h k = absurd (ground arith)
remove-Holds w (x ∷ ws) h k = ground (arith, remove-Holds w ws h.1)

no_writer :
    (w : Waiter) (ws : List Waiter)
    → All Reader ws
    → is_read w.access ≡ false
    → any (λ x. same_waiter x w) ws ≡ false
unfolding any same_waiter
no_writer w [] h k = refl
no_writer w (x ∷ ws) h k = ground (arith, no_writer w ws h.1)

module _ (s : System) (v : Valid s) where
  arrives-Valid : (w : Waiter) → Valid (turn s (arrives w))
  unfolding turn acquire
  arrives-Valid w =
      let d : DrainOk s.holders (s.lock.queue ++ w ∷ []) (acquire s.lock w) =
        drain-DrainOk (record s.lock { queue = s.lock.queue ++ w ∷ [] }) s.holders v.exclusive in
      record {
        exclusive = d.exclusive;
        settled = d.settled;
        in_order =
            append_assoc s.admitted _ _
            ∙ ap (◌++◌ s.admitted) d.in_order
            ∙ sym (append_assoc s.admitted s.lock.queue (w ∷ []))
            ∙ ap (λ x. x ++ w ∷ []) v.in_order;
      }

  -- A holder's release frees its share of the lock.
  release-Holds :
      (w : Waiter)
      → any (λ x. same_waiter x w) s.holders ≡ true
      → DrainOk (remove w s.holders) s.lock.queue (release s.lock w.access)
  release-Holds w k = elim (Bool-cases s.lock.writer) [
    | inl a ↦ elim (Bool-cases (is_read w.access)) [
      | inl r ↦
          absurd
            (not_writer s.holders r (subst (λ x. Holds x s.lock.readers s.holders) a v.exclusive) k)
      | inr r ↦ written s.holders r (subst (λ x. Holds x s.lock.readers s.holders) a v.exclusive) k
    ]
    | inr a ↦
        let h : Holds false s.lock.readers s.holders =
          subst (λ x. Holds x s.lock.readers s.holders) a v.exclusive in
        elim (Bool-cases (is_read w.access)) [
          | inl r ↦ was_read r a h
          | inr r ↦ absurd (ground (arith, no_writer w s.holders h.1 r))
        ]
  ]
    where
      not_writer :
          (hs : List Waiter)
          → is_read w.access ≡ true
          → Holds true s.lock.readers hs
          → any (λ x. same_waiter x w) hs ≡ true
          → ⊥
      not_writer [] r h m = h
      not_writer (x ∷ []) r h m = unfold any same_waiter in ground arith
      not_writer (x ∷ y ∷ hs) r h m = h

      written :
          (hs : List Waiter)
          → is_read w.access ≡ false
          → Holds true s.lock.readers hs
          → any (λ x. same_waiter x w) hs ≡ true
          → DrainOk (remove w hs) s.lock.queue (release s.lock w.access)
      written [] r h m = absurd h
      written (x ∷ []) r h m =
          unfold any same_waiter remove release in
          ground (arith, drain-DrainOk (record s.lock { writer = false }) [] (ground arith))
      written (x ∷ y ∷ hs) r h m = absurd h

      was_read :
          is_read w.access ≡ true
          → s.lock.writer ≡ false
          → Holds false s.lock.readers s.holders
          → DrainOk (remove w s.holders) s.lock.queue (release s.lock w.access)
      was_read r a h =
          unfold release in
          ground (
            arith,
            drain-DrainOk (record s.lock { readers = s.lock.readers - 1 }) (remove w s.holders)
                (ground (arith, remove-Holds w s.holders h.1 k)),
          )

  leaves-Valid : (w : Waiter) → Valid (turn s (leaves w))
  unfolding turn
  leaves-Valid w = elim (Bool-cases (any (λ x. same_waiter x w) s.holders)) [
    | inr a ↦ rw a v
    | inl a ↦
        let d : DrainOk (remove w s.holders) s.lock.queue (release s.lock w.access) =
          release-Holds w a in
        rw a (record {
          exclusive = d.exclusive;
          settled = d.settled;
          in_order = append_assoc s.admitted _ _ ∙ ap (◌++◌ s.admitted) d.in_order ∙ v.in_order;
        })
  ]

turns-Valid : (s : System) (ts : List Turn) → Valid s → Valid (turns s ts)
unfolding turns
turns-Valid s [] v = v
turns-Valid s (arrives w ∷ ts) v = turns-Valid (turn s (arrives w)) ts (arrives-Valid s v w)
turns-Valid s (leaves w ∷ ts) v = turns-Valid (turn s (leaves w)) ts (leaves-Valid s v w)

-- However tasks arrive at a fresh lock and leave it: a writer holds it alone, and otherwise the
-- counted readers do; nobody is left waiting while the lock is free, nor readers behind readers;
-- and tasks are let go on in the order of their arrival.
pub turns-fresh-Valid : (ts : List Turn) → Valid (turns fresh ts)
turns-fresh-Valid ts = turns-Valid fresh ts (
    unfold fresh in
    record { exclusive = (refl, tt); settled = record { reason = refl }; in_order = refl })
