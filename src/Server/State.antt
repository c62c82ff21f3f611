-- ===== src/Server/State.antt =====
-- The state that the requests of a client share, client/include/server/server.h, and the queues of
-- invalidations, client/src/server/server.cpp.
use folder_buddies.Base.{
  not-leb→lt, length-drop, length-append, ◌++◌, arith, inr, drop, ◌∷◌, ◌≤◌, Bool, All, leb, inl,
  length, if◌then◌else◌, Option, Bool-cases, List, ℕ, [],
}
use folder_buddies.Base.Bytes.{Bytes}
use folder_buddies.Base.Map.{Map, nat_key}
use folder_buddies.Server.Paths.{Host}
use folder_buddies.Wire.{WireAttr}

-- What an open file is to the system, or the error number of a failed call.
pub data Opened (H : Type 0) : Type 0 where
  opened : H → Opened H
  refused : ℕ → Opened H

-- A call that changes a name: done, nothing to do, or failed.
pub data Change : Type 0 where
  changed : Change
  unchanged : Change
  broken : Change

-- The calls of `FileHandle` and `std::filesystem`, on the state `S` of the system. `open_file` takes the
-- portable flags of the request: the call of `from_portable_flags` in front of it is part of it.
pub record Files (S H : Type 0) : Type 0 where
  pub answers : S → Host
  pub attributes : Bytes → S → Option WireAttr
  pub entries : Bytes → S → Option (List (Bytes × WireAttr))
  pub open_file : Bytes → ℕ → ℕ → S → Opened H × S
  pub pread : H → ℕ → ℕ → S → Option Bytes
  pub pwrite : H → Bytes → ℕ → S → Option ℕ × S
  pub fsync_data : H → S → Bool
  pub create_directory : Bytes → S → Change × S
  pub remove : Bytes → S → Change × S
  pub rename : Bytes → Bytes → S → Bool × S
  pub resize_file : Bytes → ℕ → S → Bool × S
  pub chmod : Bytes → ℕ → S → ℕ × S
  pub last_write_time : Bytes → ℕ → S → Bool × S
  pub space : Bytes → S → ℕ × ℕ × ℕ

-- `BroadcastSession`: what its sender thread has still to send.
pub record BroadcastSession : Type 0 where
  pub queue : List Bytes
  pub stopping : Bool

-- kMaxQueuedInvalidations
abbrev pub max_queued : ℕ
max_queued = 256

unfoldable pub enqueue : Bytes → BroadcastSession → BroadcastSession
enqueue path s =
    let kept = if leb max_queued (length s.queue) then drop 1 s.queue else s.queue in
    if s.stopping then s else record s { queue = kept ++ (path ∷ []) }

unfoldable pub broadcast : Bytes → List BroadcastSession → List BroadcastSession
broadcast path [] = []
broadcast path (s ∷ ss) = enqueue path s ∷ broadcast path ss

pub record State (S H : Type 0) : Type 0 where
  pub system : S
  pub handles : Map ℕ H
  pub handle_paths : Map ℕ Bytes
  pub next_fh : ℕ
  pub bytes_in : ℕ
  pub bytes_out : ℕ
  pub sessions : List BroadcastSession

-- The error numbers that the server names, and those of the system.
pub data Status : Type 0 where
  success : Status
  einval : Status
  eacces : Status
  enoent : Status
  erofs : Status
  eio : Status
  ebadf : Status
  eexist : Status
  enosys : Status
  errno : ℕ → Status

abbrev pub QueueFits : BroadcastSession → Type 0
QueueFits s = length s.queue ≤ max_queued

enqueue-QueueFits : (path : Bytes) (s : BroadcastSession) → QueueFits s → QueueFits (enqueue path s)
unfolding enqueue
enqueue-QueueFits path s h = elim (Bool-cases s.stopping) [
  | inl stop ↦ rw (stop, enqueue) h
  | inr live ↦ elim (Bool-cases (leb max_queued (length s.queue))) [
    | inl full ↦
        rw (live, full, enqueue)
          (omega (arith, length-append (drop 1 s.queue) (path ∷ []), length-drop 1 s.queue))
    | inr room ↦
        rw (live, room, enqueue)
          (omega
            (arith, length-append s.queue (path ∷ []), not-leb→lt max_queued (length s.queue) room))
  ]
]

-- An invalidation keeps every queue within 256 paths.
pub broadcast-QueueFits :
    (path : Bytes) (ss : List BroadcastSession)
    → All QueueFits ss
    → All QueueFits (broadcast path ss)
unfolding broadcast
broadcast-QueueFits path [] h = tt
broadcast-QueueFits path (s ∷ ss) h =
    (enqueue-QueueFits path s h.0, broadcast-QueueFits path ss h.1)
