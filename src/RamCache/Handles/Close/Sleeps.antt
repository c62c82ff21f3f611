-- ===== src/RamCache/Handles/Close/Sleeps.antt =====
-- The sleep of a close in `fhCv.wait` and the call that ends it keep the invariant,
-- client/src/fs/ram_cache.cpp.
use folder_buddies.RamCache.Handles.{fh_end_notifies}
use folder_buddies.RamCache.Handles.Close.{end_read, wake}
use folder_buddies.Base.{
  [], zero, suc, Bool-cases, Option-cases, inl, inr, ltb, ltb→lt, not-ltb→le, ◌++◌, ◌-◌, not,
}
use folder_buddies.Base.Ints.{ℤ, decr, is_positive}
use folder_buddies.RamCache.Handles.Close.Moves.{
  pos_injective, count-append, fh_drained-reads, count-leave_other, count-other, count-leave_own,
  fh_end_read-other, at_handle, reads_at-fh_end_read,
}
use folder_buddies.Base.{ℕ, ◌<◌, ◌==◌, true, false, ◌∷◌, ◌≡◌, sym, ◌∙◌, arith, ap}
use folder_buddies.Base.Ints.{pos}
use folder_buddies.Base.Map.{find, nat_key}
use folder_buddies.RamCache.Handles.{Handles, fh_end_read, fh_drained}
use folder_buddies.RamCache.Handles.Close.{Threads, Inv, count, leave, reads_at, closing_at}

none_asleep : (id : ℕ) → ¬ (0 < count id [])
unfolding count
none_asleep id w = omega arith

more_left : (z : ℤ) (n : ℕ) → z ≡ pos n → 0 < n → not (is_positive (decr z)) ≡ false → 0 < n - 1
more_left z zero h some_reads quiet = some_reads
more_left z (suc zero) h some_reads quiet = cc (rw h at quiet)
more_left z (suc (suc n)) h some_reads quiet = omega arith

-- A read that ends without a call leaves another read of the handle.
one_left :
    (x : ℕ) (m : Handles) (n : ℕ)
    → reads_at (find x m) ≡ pos n
    → 0 < n
    → fh_end_notifies x m ≡ false
    → 0 < n - 1
unfolding fh_end_notifies
one_left x m n h some_reads quiet = elim (Option-cases (find x m)) [
  | inl absent ↦ absurd (omega (arith, some_reads, pos_injective 0 n (rw absent at h)))
  | inr (f, present) ↦
      more_left f.active_reads n (rw present at h) some_reads
        (rw (present, fh_end_notifies) at quiet)
]

pub read_ends-Inv : (s : Threads) (x : ℕ) → Inv s → 0 < count x s.reading → Inv (end_read x s)
unfolding end_read wake
read_ends-Inv s x inv some_reads =
    let own = reads_at-fh_end_read x s.handles (count x s.reading) (inv.counted x) some_reads in
    let kept : (id : ℕ)
        → closing_at (find id (fh_end_read x s.handles)) ≡ closing_at (find id s.handles) =
      at_handle
        (λ id. closing_at (find id (fh_end_read x s.handles)) ≡ closing_at (find id s.handles)) x
        own.1 (λ id other. ap closing_at (fh_end_read-other x id s.handles other)) in
    let counted : (id : ℕ)
        → reads_at (find id (fh_end_read x s.handles)) ≡ pos (count id (leave x s.reading)) =
      at_handle
        (λ id. reads_at (find id (fh_end_read x s.handles)) ≡ pos (count id (leave x s.reading))) x
        (rw (count-leave_own x s.reading) own.0)
        (λ id other.
          rw (fh_end_read-other x id s.handles other, count-leave_other id x s.reading other)
            (inv.counted id)) in
    let drained : (id : ℕ) → 0 < count id s.releasing → count id (leave x s.reading) ≡ 0 =
      at_handle (λ id. 0 < count id s.releasing → count id (leave x s.reading) ≡ 0) x
        (λ w. omega (arith, inv.drained x w))
        (λ id other w. rw (count-leave_other id x s.reading other) (inv.drained id w)) in
    elim (Bool-cases (fh_end_notifies x s.handles)) [
      | inl call ↦ rw call (record {
        counted = counted;
        waits = λ id w. kept id ∙ woken_closing id w;
        closes = λ id w. kept id ∙ inv.closes id w;
        sleepers = λ id w. absurd (none_asleep id w);
        awaited = λ id w. absurd (none_asleep id w);
        drained = drained;
      })
      | inr quiet ↦ rw quiet (record {
        counted = counted;
        waits = λ id w. kept id ∙ inv.waits id w;
        closes = λ id w. kept id ∙ inv.closes id w;
        sleepers = λ id w. kept id ∙ inv.sleepers id w;
        awaited =
            at_handle (λ id. 0 < count id s.asleep → 0 < count id (leave x s.reading)) x
              (λ w.
                rw (count-leave_own x s.reading)
                  (one_left x s.handles (count x s.reading) (inv.counted x) some_reads quiet))
              (λ id other w. rw (count-leave_other id x s.reading other) (inv.awaited id w));
        drained = drained;
      })
    ]
  where
    woken_closing :
        (id : ℕ) → 0 < count id (s.asleep ++ s.waiting) → closing_at (find id s.handles) ≡ true
    woken_closing id w = elim (Bool-cases (ltb 0 (count id s.asleep))) [
      | inl slept ↦ inv.sleepers id (ltb→lt 0 (count id s.asleep) slept)
      | inr awake ↦ inv.waits id (
          omega (arith, count-append id s.asleep s.waiting, not-ltb→le 0 (count id s.asleep) awake))
    ]

-- A close that finds reads sleeps.
pub sleeps-Inv :
    (s : Threads) (x : ℕ)
    → Inv s
    → 0 < count x s.waiting
    → fh_drained x s.handles ≡ false
    → Inv (record s { waiting = leave x s.waiting; asleep = x ∷ s.asleep })
sleeps-Inv s x inv some_waits busy =
    let reads : (count x s.reading == 0) ≡ false =
      sym (fh_drained-reads x s.handles (count x s.reading) (inv.counted x)) ∙ busy in
    record {
      counted = inv.counted;
      waits =
          at_handle (λ id. 0 < count id (leave x s.waiting) → closing_at (find id s.handles) ≡ true)
            x (λ w. inv.waits x some_waits)
            (λ id other w. inv.waits id (rw (count-leave_other id x s.waiting other) at w));
      closes = inv.closes;
      sleepers =
          at_handle (λ id. 0 < count id (x ∷ s.asleep) → closing_at (find id s.handles) ≡ true) x
            (λ w. inv.waits x some_waits)
            (λ id other w. inv.sleepers id (rw (count-other id x s.asleep other) at w));
      awaited =
          at_handle (λ id. 0 < count id (x ∷ s.asleep) → 0 < count id s.reading) x
            (λ w. ground (arith, reads))
            (λ id other w. inv.awaited id (rw (count-other id x s.asleep other) at w));
      drained = inv.drained;
    }

pub wakes-Inv :
    (s : Threads) (x : ℕ)
    → Inv s
    → 0 < count x s.asleep
    → Inv (record s { waiting = x ∷ s.waiting; asleep = leave x s.asleep })
wakes-Inv s x inv slept = record {
  counted = inv.counted;
  waits =
      at_handle (λ id. 0 < count id (x ∷ s.waiting) → closing_at (find id s.handles) ≡ true) x
        (λ w. inv.sleepers x slept)
        (λ id other w. inv.waits id (rw (count-other id x s.waiting other) at w));
  closes = inv.closes;
  sleepers =
      at_handle (λ id. 0 < count id (leave x s.asleep) → closing_at (find id s.handles) ≡ true) x
        (λ w. inv.sleepers x slept)
        (λ id other w. inv.sleepers id (rw (count-leave_other id x s.asleep other) at w));
  awaited =
      at_handle (λ id. 0 < count id (leave x s.asleep) → 0 < count id s.reading) x
        (λ w. inv.awaited x slept)
        (λ id other w. inv.awaited id (rw (count-leave_other id x s.asleep other) at w));
  drained = inv.drained;
}
