-- ===== src/RamCache/Handles/Close/Keeps.antt =====
-- Each step of the threads keeps the invariant, client/src/fs/ram_cache.cpp.
use folder_buddies.Base.Bytes.{Bytes}
use folder_buddies.RamCache.Handles.Close.Moves.{
  fh_mark_closing-other, fh_drained-reads, closing_at-fh_mark_closing, count-leave_other,
  count-other, count-own, at_handle, begin_found,
}
use folder_buddies.Base.{
  ℕ, ◌<◌, ◌==◌, true, false, none, some, ◌∷◌, ◌≡◌, refl, sym, ◌∙◌, arith, ==_iff,
}
use folder_buddies.Base.Ints.{pos, incr}
use folder_buddies.Base.Map.{
  find, nat_key, find-insert, find-erase, find-insert_self, find-erase_self,
}
use folder_buddies.RamCache.Handles.{
  Handles, fh_begin_read, fh_mark_closing, fh_drained, fh_add, fh_remove, FhInfo, fresh_info,
}
use folder_buddies.RamCache.Handles.Close.{
  Threads, Inv, no_threads, count, leave, reads_at, closing_at,
}

pub no_threads-Inv : Inv no_threads
unfolding count find
no_threads-Inv = record {
  counted = λ id. refl;
  waits = λ id h. refl;
  closes = λ id h. refl;
  sleepers = λ id h. refl;
  awaited = λ id h. h;
  drained = λ id h. refl;
}

-- A started read was not refused.
pub read_starts-Inv :
    (s : Threads) (x : ℕ)
    → Inv s
    → (fh_begin_read x s.handles).0 ≡ true
    → Inv (record s { handles = (fh_begin_read x s.handles).1; reading = x ∷ s.reading })
read_starts-Inv s x inv h =
    let (f, present, open_still, e) = begin_found x s.handles h in
    let more : FhInfo = record f { active_reads = incr f.active_reads } in
    let own : reads_at (some f) ≡ pos (count x s.reading) = rw present at (inv.counted x) in
    let refuses : ¬ (closing_at (find x s.handles) ≡ true) =
      λ c. cc (rw (present, open_still) at c) in
    record {
      counted =
          at_handle
            (λ id.
              reads_at (find id (fh_begin_read x s.handles).1) ≡ pos (count id (x ∷ s.reading)))
            x (rw (e, find-insert_self x more s.handles, own, count-own x s.reading) refl)
            (λ id other.
              rw (e, find-insert x id more s.handles, other, count-other id x s.reading other)
                (inv.counted id));
      waits =
          at_handle
            (λ id.
              0 < count id s.waiting → closing_at (find id (fh_begin_read x s.handles).1) ≡ true)
            x (λ w. absurd (refuses (inv.waits x w)))
            (λ id other w. rw (e, find-insert x id more s.handles, other) (inv.waits id w));
      closes =
          at_handle
            (λ id.
              0 < count id s.releasing → closing_at (find id (fh_begin_read x s.handles).1) ≡ true)
            x (λ w. absurd (refuses (inv.closes x w)))
            (λ id other w. rw (e, find-insert x id more s.handles, other) (inv.closes id w));
      sleepers =
          at_handle
            (λ id.
              0 < count id s.asleep → closing_at (find id (fh_begin_read x s.handles).1) ≡ true)
            x (λ w. absurd (refuses (inv.sleepers x w)))
            (λ id other w. rw (e, find-insert x id more s.handles, other) (inv.sleepers id w));
      awaited =
          at_handle (λ id. 0 < count id s.asleep → 0 < count id (x ∷ s.reading)) x
            (λ w. absurd (refuses (inv.sleepers x w)))
            (λ id other w. rw (count-other id x s.reading other) (inv.awaited id w));
      drained =
          at_handle (λ id. 0 < count id s.releasing → count id (x ∷ s.reading) ≡ 0) x
            (λ w. absurd (refuses (inv.closes x w)))
            (λ id other w. rw (count-other id x s.reading other) (inv.drained id w));
    }

pub close_starts-Inv :
    (s : Threads) (x : ℕ)
    → Inv s
    → Inv (record s { handles = fh_mark_closing x s.handles; waiting = x ∷ s.waiting })
close_starts-Inv s x inv =
    let own = closing_at-fh_mark_closing x s.handles in
    record {
      counted =
          at_handle
            (λ id. reads_at (find id (fh_mark_closing x s.handles)) ≡ pos (count id s.reading)) x
            (own.0 ∙ inv.counted x)
            (λ id other. rw (fh_mark_closing-other x id s.handles other) (inv.counted id));
      waits =
          at_handle
            (λ id.
              0 < count id (x ∷ s.waiting)
              → closing_at (find id (fh_mark_closing x s.handles)) ≡ true)
            x (λ w. own.1)
            (λ id other w.
              rw (fh_mark_closing-other x id s.handles other)
                (inv.waits id (rw (count-other id x s.waiting other) at w)));
      closes =
          at_handle
            (λ id.
              0 < count id s.releasing → closing_at (find id (fh_mark_closing x s.handles)) ≡ true)
            x (λ w. own.1)
            (λ id other w. rw (fh_mark_closing-other x id s.handles other) (inv.closes id w));
      sleepers =
          at_handle
            (λ id.
              0 < count id s.asleep → closing_at (find id (fh_mark_closing x s.handles)) ≡ true)
            x (λ w. own.1)
            (λ id other w. rw (fh_mark_closing-other x id s.handles other) (inv.sleepers id w));
      awaited = inv.awaited;
      drained = inv.drained;
    }

pub release_sent-Inv :
    (s : Threads) (x : ℕ)
    → Inv s
    → 0 < count x s.waiting
    → fh_drained x s.handles ≡ true
    → Inv (record s { waiting = leave x s.waiting; releasing = x ∷ s.releasing })
release_sent-Inv s x inv waits ready =
    let none_left : count x s.reading ≡ 0 =
      (==_iff (count x s.reading) 0).0
        (sym (fh_drained-reads x s.handles (count x s.reading) (inv.counted x)) ∙ ready) in
    record {
      counted = inv.counted;
      waits =
          at_handle (λ id. 0 < count id (leave x s.waiting) → closing_at (find id s.handles) ≡ true)
            x (λ w. inv.waits x waits)
            (λ id other w. inv.waits id (rw (count-leave_other id x s.waiting other) at w));
      closes =
          at_handle (λ id. 0 < count id (x ∷ s.releasing) → closing_at (find id s.handles) ≡ true) x
            (λ w. inv.waits x waits)
            (λ id other w. inv.closes id (rw (count-other id x s.releasing other) at w));
      sleepers = inv.sleepers;
      awaited = inv.awaited;
      drained =
          at_handle (λ id. 0 < count id (x ∷ s.releasing) → count id s.reading ≡ 0) x
            (λ w. none_left)
            (λ id other w. inv.drained id (rw (count-other id x s.releasing other) at w));
    }

pub release_ends-Inv :
    (s : Threads) (x : ℕ)
    → Inv s
    → 0 < count x s.releasing
    → Inv (record s { handles = fh_remove x s.handles; releasing = leave x s.releasing })
unfolding fh_remove
release_ends-Inv s x inv closes =
    let gone : find x (fh_remove x s.handles) ≡ none = find-erase_self x s.handles in
    let kept : (id : ℕ) → (x == id) ≡ false → find id (fh_remove x s.handles) ≡ find id s.handles =
      λ id other. find-erase x id s.handles ∙ rw other refl in
    record {
      counted =
          at_handle (λ id. reads_at (find id (fh_remove x s.handles)) ≡ pos (count id s.reading)) x
            (rw (gone, inv.drained x closes) refl)
            (λ id other. rw (kept id other) (inv.counted id));
      waits =
          at_handle
            (λ id. 0 < count id s.waiting → closing_at (find id (fh_remove x s.handles)) ≡ true) x
            (λ w. rw gone refl) (λ id other w. rw (kept id other) (inv.waits id w));
      closes =
          at_handle
            (λ id.
              0 < count id (leave x s.releasing)
              → closing_at (find id (fh_remove x s.handles)) ≡ true)
            x (λ w. rw gone refl)
            (λ id other w.
              rw (kept id other)
                (inv.closes id (rw (count-leave_other id x s.releasing other) at w)));
      sleepers =
          at_handle
            (λ id. 0 < count id s.asleep → closing_at (find id (fh_remove x s.handles)) ≡ true) x
            (λ w. rw gone refl) (λ id other w. rw (kept id other) (inv.sleepers id w));
      awaited = inv.awaited;
      drained =
          at_handle (λ id. 0 < count id (leave x s.releasing) → count id s.reading ≡ 0) x
            (λ w. inv.drained x closes)
            (λ id other w. inv.drained id (rw (count-leave_other id x s.releasing other) at w));
    }

pub opened-Inv :
    (s : Threads) (x : ℕ) (path : Bytes)
    → Inv s
    → count x s.reading ≡ 0
    → count x s.waiting ≡ 0
    → count x s.asleep ≡ 0
    → count x s.releasing ≡ 0
    → Inv (record s { handles = fh_add x path s.handles })
unfolding fh_add
opened-Inv s x path inv r w a c =
    let kept : (id : ℕ)
        → (x == id) ≡ false
        → find id (fh_add x path s.handles) ≡ find id s.handles =
      λ id other. find-insert x id (fresh_info path) s.handles ∙ rw other refl in
    record {
      counted =
          at_handle (λ id. reads_at (find id (fh_add x path s.handles)) ≡ pos (count id s.reading))
            x (rw (find-insert_self x (fresh_info path) s.handles, r) refl)
            (λ id other. rw (kept id other) (inv.counted id));
      waits =
          at_handle
            (λ id. 0 < count id s.waiting → closing_at (find id (fh_add x path s.handles)) ≡ true) x
            (λ h. absurd (omega arith)) (λ id other h. rw (kept id other) (inv.waits id h));
      closes =
          at_handle
            (λ id. 0 < count id s.releasing → closing_at (find id (fh_add x path s.handles)) ≡ true)
            x (λ h. absurd (omega arith)) (λ id other h. rw (kept id other) (inv.closes id h));
      sleepers =
          at_handle
            (λ id. 0 < count id s.asleep → closing_at (find id (fh_add x path s.handles)) ≡ true) x
            (λ h. absurd (omega arith)) (λ id other h. rw (kept id other) (inv.sleepers id h));
      awaited = inv.awaited;
      drained = inv.drained;
    }

-- A change that keeps what every handle counts and refuses.
pub kept-Inv :
    (s : Threads) (m : Handles)
    → Inv s
    → ((id : ℕ)
        → (reads_at (find id m) ≡ reads_at (find id s.handles))
          × (closing_at (find id m) ≡ closing_at (find id s.handles)))
    → Inv (record s { handles = m })
kept-Inv s m inv same = record {
  counted = λ id. (same id).0 ∙ inv.counted id;
  waits = λ id w. (same id).1 ∙ inv.waits id w;
  closes = λ id w. (same id).1 ∙ inv.closes id w;
  sleepers = λ id w. (same id).1 ∙ inv.sleepers id w;
  awaited = inv.awaited;
  drained = inv.drained;
}
