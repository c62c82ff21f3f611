-- ===== src/Tests/Handles.antt =====
-- Reads and a close of one handle on a small run.
use folder_buddies.Base.{◌≡◌, true, false, refl, [], ◌∷◌, arith}
use folder_buddies.Base.Map.{find, insert, erase, nat_key}
use folder_buddies.RamCache.Handles.{
  fh_end_notifies, fh_add, fh_begin_read, fh_end_read, fh_mark_closing, fh_drained,
}
use folder_buddies.RamCache.Handles.Close.{
  wake, sleeps, end_read, Threads, Reach, here, next, no_threads, count, leave, opened, read_starts,
  read_ends, close_starts, release_sent,
}
use folder_buddies.RamCache.Handles.Close.Safe.{closers, release-alone, close-drains, finish}

abbrev after_open : Threads
after_open = record no_threads { handles = fh_add 7 (47 ∷ []) [] }

abbrev while_reading : Threads
while_reading = record after_open {
  handles = (fh_begin_read 7 after_open.handles).1;
  reading = 7 ∷ [];
}

abbrev while_waiting : Threads
while_waiting = record while_reading {
  handles = fh_mark_closing 7 while_reading.handles;
  waiting = 7 ∷ [];
}

abbrev while_asleep : Threads
while_asleep = record while_waiting { waiting = leave 7 while_waiting.waiting; asleep = 7 ∷ [] }

abbrev while_drained : Threads
while_drained = end_read 7 while_asleep

abbrev while_releasing : Threads
while_releasing = record while_drained {
  waiting = leave 7 while_drained.waiting;
  releasing = 7 ∷ [];
}

waiting_run : Reach no_threads while_waiting
unfolding count fh_add fh_begin_read find insert erase
waiting_run =
    next (next (next here (opened 7 (47 ∷ []) refl refl refl refl)) (read_starts 7 refl))
      (close_starts 7)

asleep_run : Reach no_threads while_asleep
unfolding count fh_add fh_begin_read fh_mark_closing fh_drained find insert erase leave
asleep_run = next waiting_run (sleeps 7 (omega arith) refl)

releasing_run : Reach no_threads while_releasing
unfolding count fh_add fh_begin_read fh_mark_closing fh_end_read fh_drained find insert erase leave
    end_read wake fh_end_notifies
releasing_run =
    next (next asleep_run (read_ends 7 (omega arith))) (release_sent 7 (omega arith) refl)

release-alone_example :
    (count 7 while_releasing.reading ≡ 0) × ((fh_begin_read 7 while_releasing.handles).0 ≡ false)
unfolding count
release-alone_example = release-alone 7 releasing_run (omega arith)

close-drains_example :
    ((fh_begin_read 7 while_asleep.handles).0 ≡ false)
    × Reach no_threads (finish (count 7 while_asleep.reading) 7 while_asleep)
    × (count 7 (finish (count 7 while_asleep.reading) 7 while_asleep).waiting
        ≡ closers 7 while_asleep)
    × (count 7 (finish (count 7 while_asleep.reading) 7 while_asleep).asleep ≡ 0)
    × (fh_drained 7 (finish (count 7 while_asleep.reading) 7 while_asleep).handles ≡ true)
unfolding count leave
close-drains_example = close-drains 7 asleep_run (omega arith)
