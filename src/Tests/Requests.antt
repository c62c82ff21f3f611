-- ===== src/Tests/Requests.antt =====
-- Requests to the RAM cache over a host with one small file.
use folder_buddies.RamCache.Fetch.Whole.{Ready, Serves}
use folder_buddies.Base.{
  ◌*◌, ℕ, ◌≡◌, Option, none, some, true, false, refl, [], ◌∷◌, arith, take, drop, ◌==◌,
  if◌then◌else◌,
}
use folder_buddies.Base.Bytes.{Bytes}
use folder_buddies.Base.Map.{find, nat_key, bytes_key}
use folder_buddies.Base.Totals.{total}
use folder_buddies.Wire.{put_str}
use folder_buddies.Wire.Op.{Op, op_code, op_of}
use folder_buddies.RamCache.Budget.{gib}
use folder_buddies.RamCache.Handles.{fresh_info, fh_path}
use folder_buddies.RamCache.State.{Ram, RemoteFs, budget_now}
use folder_buddies.RamCache.Prefetch.{schedule_read_ahead}
use folder_buddies.RamCache.Prefetch.Bounds.{Within, schedule_read_ahead-Within}
use folder_buddies.RamCache.Fetch.{read_args, read_payload, do_read, forward}
use folder_buddies.RamCache.Fetch.Transparent.{do_read-transparent, read_args-read_payload}
use folder_buddies.RamCache.Request.{request, request_op, write_through}
use folder_buddies.RamCache.Request.Through.{Through, request-Through}
use folder_buddies.RamCache.Request.Forgets.Accepted.{Forgets, request-Forgets}
use folder_buddies.RamCache.Request.Keeps.{WellFormed}
use folder_buddies.RamCache.Request.Keeps.Requests.{request-kept}

abbrev file_content : Bytes
file_content = 10 ∷ 20 ∷ 30 ∷ []

abbrev file_name : Bytes
file_name = 47 ∷ 97 ∷ []

abbrev serve_read : Option (ℕ × (ℕ × ℕ)) → ℕ × Bytes
serve_read none = (5, [])
serve_read (some (fh_id, (off, len))) = (0, take len (drop off file_content))

-- A host with one file and a clock that stands still. It refuses OP_ACCESS.
abbrev one_file : RemoteFs (Unit {0})
one_file = record {
  request = λ op payload w.
      if op == 13
      then (serve_read (read_args payload).0, w)
      else if op == 27
      then ((13, []), w)
      else ((0, []), w);
  now = λ w. 5000;
  detect_ram = λ w. record { total = 8 * gib; avail = 4 * gib };
}

abbrev fresh_ram : Ram
fresh_ram = record {
  caches = record { meta = []; neg = []; dir = [] };
  handles = (1, fresh_info file_name) ∷ [];
  blocks = record { files = []; lru = []; cur_bytes = 0; evictions = 0 };
  pool = record { queue = []; running = true };
  ram_total = 8 * gib;
  effective_budget = gib;
  budget_checked_at = 4000;
}

fresh_ram-WellFormed : WellFormed fresh_ram
unfolding find total
fresh_ram-WellFormed = record {
  blocks = record {
    names = tt;
    indices = λ a v h. cc;
    counted = refl;
    listed = λ k. refl;
    once = tt;
  };
  caches = record { meta = omega arith; neg = omega arith; dir = omega arith };
  queue = omega arith;
}

abbrev one_version : Bytes → ℕ → ℕ → Bytes
one_version path size mtime = file_content

abbrev Always : Unit {0} → Type 0
Always w = Unit

one_file-Serves : Serves one_file one_version 1 file_content Always
unfolding op_code
one_file-Serves off len w served h1 h2 =
    (rw (read_args-read_payload 1 off len (omega arith) (omega arith) (omega arith)) refl, tt)

fresh_ram-Ready : Ready one_file one_version 1 file_content Always (fresh_ram, tt)
unfolding find
fresh_ram-Ready = (tt, λ path f h. cc h, refl)

fresh_ram-tracked : fh_path 1 fresh_ram.handles ≡ some file_name
unfolding fh_path find
fresh_ram-tracked = refl

do_read-transparent_example :
    (do_read one_file (read_payload 1 1 2) (fresh_ram, tt)).0
    ≡ (one_file.request (op_code Op.read_op) (read_payload 1 1 2) tt).0
do_read-transparent_example =
    do_read-transparent one_file one_version 1 file_content Always one_file-Serves file_name 1 2
      fresh_ram tt (λ w h. (λ a e. refl, tt)) fresh_ram-tracked (λ f h k. refl, λ e h. refl)
      fresh_ram-Ready (omega arith) (omega arith) (omega arith)

schedule_read_ahead-Within_example :
    Within
      (budget_now one_file tt fresh_ram).0
      fresh_ram.pool
      (schedule_read_ahead one_file 1 file_name 3 0 3 0 tt fresh_ram).pool
schedule_read_ahead-Within_example =
    schedule_read_ahead-Within one_file 1 file_name 3 0 3 0 tt fresh_ram (omega arith)

request-Through_example :
    Through one_file 17
      (put_str file_name [])
      fresh_ram
      tt
      false
      (request one_file 17 (put_str file_name []) (fresh_ram, tt))
unfolding op_of
request-Through_example = request-Through one_file 17 (put_str file_name []) fresh_ram tt refl

request-Forgets_example :
    Forgets Op.unlink
      (put_str file_name [])
      fresh_ram
      (request one_file 17 (put_str file_name []) (fresh_ram, tt)).1.0
unfolding op_of request request_op write_through forward
request-Forgets_example = request-Forgets one_file 17 (put_str file_name []) fresh_ram tt refl

request-kept_example : WellFormed (request one_file 13 (read_payload 1 1 2) (fresh_ram, tt)).1.0
request-kept_example =
    request-kept one_file 13 (read_payload 1 1 2) fresh_ram tt fresh_ram-WellFormed
