-- ===== src/RamCache/Names.antt =====
-- The paths whose directory listings a change makes stale: `parent_of` and `join_path`,
-- client/src/fs/ram_cache.cpp.
use folder_buddies.Base.{
  sym, ◌||◌, Bool-cases, arith, ◌==◌, is_empty, Option, ◌≡◌, All, ◌++◌, if◌then◌else◌, ℕ, refl, [],
  ◌∷◌, none, some, inl, inr, false,
}
use folder_buddies.Base.Bytes.{bytes_eq_iff, Bytes, codes, bytes_eq}

abbrev pub top : Bytes
top = codes "/"

-- The text before the last `/`.
unfoldable pub before_last : Bytes → Option Bytes
before_last [] = none
before_last (c ∷ s) = elim (before_last s) [
  | some q ↦ some (c ∷ q)
  | none ↦ if c == 47 then some [] else none
]

unfoldable pub parent_of : Bytes → Bytes
parent_of p =
    if is_empty p || bytes_eq p top
    then top
    else elim (before_last p) [ none ↦ top | some q ↦ if is_empty q then top else q ]

unfoldable pub join_path : Bytes → Bytes → Bytes
join_path dir name = if is_empty dir || bytes_eq dir top then 47 ∷ name else dir ++ (47 ∷ name)

abbrev pub NoSlash : Bytes → Type 0
NoSlash name = All (λ c. (c == 47) ≡ false) name

before_last-NoSlash : (name : Bytes) → NoSlash name → before_last name ≡ none
unfolding before_last
before_last-NoSlash [] h = refl
before_last-NoSlash (c ∷ name) h = rw (before_last-NoSlash name h.1, h.0) refl

before_last-append : (dir name : Bytes) → NoSlash name → before_last (dir ++ (47 ∷ name)) ≡ some dir
unfolding before_last
before_last-append [] name h = rw (before_last-NoSlash name h) refl
before_last-append (c ∷ dir) name h = rw (before_last-append dir name h) refl

not_top : (dir : Bytes) (x : ℕ) (name : Bytes) → bytes_eq (dir ++ (47 ∷ x ∷ name)) top ≡ false
unfolding bytes_eq
not_top [] x name = refl
not_top (d ∷ []) x name = ground arith
not_top (d ∷ e ∷ dir) x name = ground arith

-- A file's parent is the directory that its path was joined from, `/` for the empty one.
pub parent_of-join_path :
    (dir : Bytes) (x : ℕ) (name : Bytes)
    → NoSlash (x ∷ name)
    → parent_of (join_path dir (x ∷ name)) ≡ (if is_empty dir then top else dir)
unfolding parent_of join_path
parent_of-join_path [] x name h = rw (not_top [] x name, before_last-append [] (x ∷ name) h) refl
parent_of-join_path (d ∷ dir) x name h = elim (Bool-cases (bytes_eq (d ∷ dir) top)) [
  | inl root ↦
      rw (root, not_top [] x name, before_last-append [] (x ∷ name) h)
        (sym ((bytes_eq_iff (d ∷ dir) top).0 root))
  | inr deep ↦ rw (deep, not_top (d ∷ dir) x name, before_last-append (d ∷ dir) (x ∷ name) h) refl
]
