-- ===== src/Tests/Server.antt =====
-- The server on a file system that counts its changes.
use folder_buddies.Server.Dispatch.{opens_for_write, dispatch}
use folder_buddies.Base.{
  arith, All, ◌≢◌, length, suc, ◌⊎◌, ◌≡◌, if◌then◌else◌, List, ℕ, refl, [], ◌∷◌, none, some, inl,
  inr, false, true,
}
use folder_buddies.Base.Bytes.{bytes_eq, Bytes, codes}
use folder_buddies.Server.Paths.{
  slash, up, is_below, strip_reversed, path_within, joined_path, confine, dot_dot, normal_parts,
  enter, lexically_normal, step_into, strip_leading, resolve_parts, components, path_key, Host,
  resolve, missing,
}
use folder_buddies.Server.Confined.{Among, Under, resolve-Under, resolve-dot_dot}
use folder_buddies.Server.State.{
  broadcast, changed, BroadcastSession, QueueFits, Files, State, opened, broadcast-QueueFits,
}
use folder_buddies.Server.ReadOnly.{dispatch-read_only, QuietOpen}
use folder_buddies.Wire.Op.{Op}

abbrev pub root : Bytes
root = codes "/s"

abbrev pub empty_host : Host
empty_host = record { exists = λ p. missing; is_link = λ p. false; canonical = λ p. none }

resolves : resolve empty_host root (codes "//a/./b") ≡ some (codes "/s/a/b")
unfolding resolve resolve_parts step_into components strip_leading enter confine path_within
    path_key lexically_normal normal_parts joined_path strip_reversed is_below bytes_eq up
resolves = refl

not_top : path_key root ≢ slash ∷ []
unfolding path_key lexically_normal normal_parts joined_path strip_reversed components bytes_eq up
not_top e = cc

resolve-Under_example :
    (path_key (codes "/s/a/b") ≡ path_key root) ⊎ Under (path_key root) (path_key (codes "/s/a/b"))
resolve-Under_example =
    resolve-Under empty_host root (codes "//a/./b") (codes "/s/a/b") not_top resolves

dots : Among dot_dot (components (strip_leading (codes "/a/../..")))
unfolding components strip_leading
dots = inr (inl refl)

resolve-dot_dot_example : resolve empty_host root (codes "/a/../..") ≡ none
resolve-dot_dot_example = resolve-dot_dot empty_host root (codes "/a/../..") dots

abbrev busy : List BroadcastSession
busy = record { queue = codes "/x" ∷ []; stopping = false } ∷ []

broadcast-QueueFits_example : All QueueFits (broadcast (codes "/a") busy)
broadcast-QueueFits_example = broadcast-QueueFits (codes "/a") busy (omega arith, tt)

-- Each call that changes anything adds one.
abbrev pub counting : Files ℕ ℕ
counting = record {
  answers = λ s. empty_host;
  attributes = λ p s. none;
  entries = λ p s. some [];
  open_file =
      λ p flags mode s. if opens_for_write false flags then (opened 1, suc s) else (opened 1, s);
  pread = λ h size off s. some [];
  pwrite = λ h b off s. (some (length b), suc s);
  fsync_data = λ h s. true;
  create_directory = λ p s. (changed, suc s);
  remove = λ p s. (changed, suc s);
  rename = λ p q s. (true, suc s);
  resize_file = λ p n s. (true, suc s);
  chmod = λ p mode s. (0, suc s);
  last_write_time = λ p t s. (true, suc s);
  space = λ p s. (0, 0, 0);
}

counting-QuietOpen : QuietOpen counting
counting-QuietOpen abs flags mode s h = rw h refl

abbrev pub fresh : State ℕ ℕ
fresh = record {
  system = 7;
  handles = [];
  handle_paths = [];
  next_fh = 1;
  bytes_in = 0;
  bytes_out = 0;
  sessions = busy;
}

-- The path /a, to be opened for reading.
abbrev open_request : Bytes
open_request = 2 ∷ 0 ∷ 0 ∷ 0 ∷ 47 ∷ 97 ∷ 0 ∷ 0 ∷ 0 ∷ 0 ∷ 0 ∷ 0 ∷ 0 ∷ 0 ∷ []

dispatch-read_only_example :
    (dispatch counting root false Op.open_op open_request fresh).2.system ≡ 7
dispatch-read_only_example =
    dispatch-read_only counting root Op.open_op open_request fresh counting-QuietOpen
