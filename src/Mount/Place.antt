-- ===== src/Mount/Place.antt =====
-- The name of a mounted share, client/src/fs/fuse_fs.cpp: `sanitize` and `dedupe_path`.
use folder_buddies.Base.{
  ℕ, suc, zero, ◌+◌, ◌/◌, ◌%◌, Bool, ◌||◌, ◌&&◌, not, [], ◌∷◌, ◌++◌, ◌==◌, if◌then◌else◌,
}
use folder_buddies.Base.Bytes.{Bytes}

-- The bytes / \\ : * ? \" < > and |
unfoldable pub is_unsafe : ℕ → Bool
is_unsafe c =
    c == 47 || c == 92 || c == 58 || c == 42 || c == 63 || c == 34 || c == 60 || c == 62 || c == 124

unfoldable pub sanitize_bytes : Bytes → Bytes
unfolding is_unsafe
sanitize_bytes [] = []
sanitize_bytes (c ∷ name) = (if is_unsafe c then 95 else c) ∷ sanitize_bytes name

-- A name that is empty becomes "share".
unfoldable pub sanitize : Bytes → Bytes
unfolding sanitize_bytes
sanitize [] = 115 ∷ 104 ∷ 97 ∷ 114 ∷ 101 ∷ []
sanitize (c ∷ name) = sanitize_bytes (c ∷ name)

-- `std::to_string` of a number below 1000.
unfoldable pub to_string : ℕ → Bytes
to_string n =
    if n / 10 == 0
    then (48 + n % 10) ∷ []
    else if n / 100 == 0
    then (48 + n / 10) ∷ (48 + n % 10) ∷ []
    else (48 + n / 100) ∷ (48 + n / 10 % 10) ∷ (48 + n % 10) ∷ []

unfoldable pub candidate : Bytes → ℕ → Bytes
unfolding to_string
candidate name n = if n == 1 then name else name ++ (45 ∷ []) ++ to_string n

-- What is at a path: whether it exists, is a directory, and is an empty one.
pub record PathState : Type 0 where
  pub exists : Bool
  pub is_directory : Bool
  pub is_empty : Bool

abbrev pub is_usable : PathState → Bool
is_usable p = not p.exists || (p.is_directory && p.is_empty)

-- The loop of `dedupe_path` from the candidate `n`, with `look` for what is in the base directory.
module _ (look : Bytes → PathState) where
  unfoldable pub find_candidate : ℕ → ℕ → Bytes → Bytes
  unfolding candidate
  find_candidate zero n name = name
  find_candidate (suc fuel) n name =
      let rest = find_candidate fuel (suc n) name in
      if is_usable (look (candidate name n)) then candidate name n else rest

  unfoldable pub dedupe_path : Bytes → Bytes
  unfolding find_candidate
  dedupe_path name = find_candidate 999 1 name
