-- ===== src/Tests/Mount.antt =====
-- The mounted file system over a server with one open file.
use folder_buddies.Base.{
  drop, take, [], none, length, ◌+◌, some, ◌∷◌, arith, false, true, ℕ, refl, ◌≡◌,
}
use folder_buddies.Base.Bytes.{bytes_eq, Bytes, codes}
use folder_buddies.Base.Map.{find, nat_key}
use folder_buddies.Mount.{
  returns, OpenFlags, to_portable_flags, from_portable_flags, map_flags, fs_read, fs_write,
  read_chunks, write_chunks,
}
use folder_buddies.Mount.Place.{sanitize, dedupe_path, find_candidate, candidate, to_string}
use folder_buddies.Mount.Served.{serve, fs_read-served}
use folder_buddies.Mount.Served.Written.{fs_write-served, PwritesFile, put}
use folder_buddies.Mount.Transfer.{transfer-ends}
use folder_buddies.Mount.Writes.{patch, transferred}
use folder_buddies.Server.State.{unchanged, opened, Files, State}
use folder_buddies.Tests.Server.{counting, root, fresh, empty_host}

abbrev text : Bytes
text = codes "hello world"

-- Every open file has the text.
abbrev shelf : Files ℕ ℕ
shelf = record counting { pread = λ h len off s. some (take len (drop off text)) }

-- The server has file 1 open under the number 5.
abbrev one_open : State ℕ ℕ
one_open = record fresh { handles = (5, 1) ∷ [] }

opened_there : find 5 one_open.handles ≡ some 1
unfolding find
opened_there = refl

fs_read-served_example :
    (fs_read (serve shelf root true) 5 6 20 one_open).0
    ≡ (returns (length (take 20 (drop 6 text))), take 20 (drop 6 text))
fs_read-served_example =
    fs_read-served shelf root true 5 1 text 6 20 one_open (omega arith) opened_there
      (λ len off near. refl) (omega arith) (omega arith)

-- One file, as the byte at each offset.
abbrev disk : Files (ℕ → ℕ) ℕ
disk = record {
  answers = λ s. empty_host;
  attributes = λ p s. none;
  entries = λ p s. some [];
  open_file = λ p flags mode s. (opened 1, s);
  pread = λ h size off s. some [];
  pwrite = λ h b off s. (some (length b), patch off b (length b) s);
  fsync_data = λ h s. true;
  create_directory = λ p s. (unchanged, s);
  remove = λ p s. (unchanged, s);
  rename = λ p q s. (false, s);
  resize_file = λ p n s. (false, s);
  chmod = λ p mode s. (1, s);
  last_write_time = λ p t s. (false, s);
  space = λ p s. (0, 0, 0);
}

disk-PwritesFile : PwritesFile disk root 1 (λ (s : ℕ → ℕ). s)
disk-PwritesFile bs off s = put (length bs) refl (omega arith) (λ i. refl)

abbrev disk_open : State (ℕ → ℕ) ℕ
disk_open = record {
  system = λ i. 0;
  handles = (5, 1) ∷ [];
  handle_paths = (5, codes "/a") ∷ [];
  next_fh = 6;
  bytes_in = 0;
  bytes_out = 0;
  sessions = [];
}

disk_opened : find 5 disk_open.handles ≡ some 1
unfolding find
disk_opened = refl

fs_write-served_example :
    (fs_write (serve disk root true) 5 text 3 disk_open).1.system 4
    ≡ patch 3 text (transferred (fs_write (serve disk root true) 5 text 3 disk_open).0) (λ i. 0) 4
fs_write-served_example =
    fs_write-served disk root 1 (λ (s : ℕ → ℕ). s) disk-PwritesFile 5 text 3 disk_open 4
      (omega arith) disk_opened (omega arith) (omega arith)

transfer-ends_example :
    (read_chunks (serve shelf root true) (20 + 2) 5 6 20 [] one_open
      ≡ read_chunks (serve shelf root true) 20 5 6 20 [] one_open)
    × (write_chunks (serve shelf root true) (length text + 2) 5 6 text 0 one_open
        ≡ write_chunks (serve shelf root true) (length text) 5 6 text 0 one_open)
transfer-ends_example = transfer-ends (serve shelf root true) 5 6 2 20 text one_open

-- The flags of Linux.
abbrev linux : OpenFlags
linux = record { creat = 0x40; excl = 0x80; trunc = 0x200; append = 0x400; binary = 0 }

flags_there : to_portable_flags linux 0x242 ≡ 0x502
unfolding to_portable_flags map_flags
flags_there = refl

flags_back : from_portable_flags linux 0x502 ≡ 0x242
unfolding from_portable_flags map_flags
flags_back = refl

safe_name : sanitize (codes "a:b/c") ≡ codes "a_b_c"
unfolding sanitize
safe_name = refl

second_name :
    dedupe_path
      (λ name. record {
        exists = bytes_eq name (codes "share");
        is_directory = true;
        is_empty = false;
      })
      (codes "share")
    ≡ codes "share-2"
unfolding dedupe_path find_candidate candidate to_string bytes_eq
second_name = refl
