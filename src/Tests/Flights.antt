-- ===== src/Tests/Flights.antt =====
-- Two threads that want one block.
use folder_buddies.Base.{min, ◌≤◌, refl, [], ◌∷◌}
use folder_buddies.Base.Bytes.{bytes_eq, Bytes}
use folder_buddies.Base.Map.{find, bytes_key}
use folder_buddies.RamCache.Blocks.{block_get, same_slot}
use folder_buddies.RamCache.Flights.{
  Flights, FetchReach, here, next, asks, sleeps, no_flights, start_fetch, count_slot,
}
use folder_buddies.RamCache.Flights.Single.{fetch-single}

abbrev wanted_file : Bytes
wanted_file = 47 ∷ 98 ∷ []

abbrev both : Flights
both = record no_flights {
  inflight = (wanted_file, 3) ∷ [];
  asking = (wanted_file, 3) ∷ [];
  asleep = (wanted_file, 3) ∷ [];
}

both_run : FetchReach no_flights both
unfolding start_fetch block_get find same_slot bytes_eq
both_run = next (next here (asks wanted_file 9 1 3 refl)) (sleeps wanted_file 9 1 3 refl)

fetch-single_example :
    (count_slot (wanted_file, 3) both.asking ≤ 1)
    × (min 1 (count_slot (wanted_file, 3) both.asleep) ≤ count_slot (wanted_file, 3) both.asking)
fetch-single_example = fetch-single wanted_file 3 both_run
