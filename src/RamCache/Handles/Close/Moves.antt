-- ===== src/RamCache/Handles/Close/Moves.antt =====
-- What the steps on the handles leave at each handle.
use folder_buddies.Base.{
  ◌+◌, ◌++◌, zero, suc-==-zero, ℕ, suc, ◌-◌, ◌<◌, ◌==◌, true, false, some, List, [], ◌∷◌, inl, inr,
  ◌≡◌, refl, sym, arith, Bool-cases, Option-cases, ==_iff, ap,
}
use mathlib.Core.Path.{subst}
use folder_buddies.Base.Ints.{ℤ, pos, incr, decr, is_zero}
use folder_buddies.Base.Bytes.{Bytes, bytes_eq}
use folder_buddies.Base.Map.{find, insert, nat_key, find-insert, find-insert_self}
use folder_buddies.RamCache.Handles.{
  Handles, FhInfo, fh_begin_read, fh_end_read, fh_mark_closing, fh_drained, clear_fh_version,
  rename_fh_paths,
}
use folder_buddies.RamCache.Handles.Close.{count, leave, reads_at, closing_at}

pub count-other : (id x : ℕ) (xs : List ℕ) → (x == id) ≡ false → count id (x ∷ xs) ≡ count id xs
unfolding count
count-other id x xs h = rw h refl

count_self : (id x : ℕ) (xs : List ℕ) → (x == id) ≡ true → count id (x ∷ xs) ≡ suc (count id xs)
unfolding count
count_self id x xs h = rw h refl

pub count-leave_other :
    (id x : ℕ) (xs : List ℕ) → (x == id) ≡ false → count id (leave x xs) ≡ count id xs
unfolding count leave
count-leave_other id x [] h = refl
count-leave_other id x (y ∷ xs) h = ground (arith, count-leave_other id x xs h)

count-leave : (id x : ℕ) (xs : List ℕ) → (x == id) ≡ true → count id (leave x xs) ≡ count id xs - 1
unfolding count leave
count-leave id x [] h = omega arith
count-leave id x (y ∷ xs) h = ground (arith, count-leave id x xs h)

pub reads_at-clear_fh_version :
    (id : ℕ) (path : Bytes) (m : Handles)
    → (reads_at (find id (clear_fh_version path m)) ≡ reads_at (find id m))
      × (closing_at (find id (clear_fh_version path m)) ≡ closing_at (find id m))
unfolding clear_fh_version find
reads_at-clear_fh_version id path [] = (refl, refl)
reads_at-clear_fh_version id path ((x, f) ∷ m) =
    let rest = reads_at-clear_fh_version id path m in
    elim (Bool-cases (bytes_eq f.path path)) [
      | inl hit ↦ elim (Bool-cases (x == id)) [
        | inl own ↦ rw (hit, own) (refl, refl)
        | inr other ↦ rw (hit, other) rest
      ]
      | inr miss ↦ elim (Bool-cases (x == id)) [
        | inl own ↦ rw (miss, own) (refl, refl)
        | inr other ↦ rw (miss, other) rest
      ]
    ]

pub reads_at-rename_fh_paths :
    (id : ℕ) (from to : Bytes) (m : Handles)
    → (reads_at (find id (rename_fh_paths from to m)) ≡ reads_at (find id m))
      × (closing_at (find id (rename_fh_paths from to m)) ≡ closing_at (find id m))
unfolding rename_fh_paths find
reads_at-rename_fh_paths id from to [] = (refl, refl)
reads_at-rename_fh_paths id from to ((x, f) ∷ m) =
    let rest = reads_at-rename_fh_paths id from to m in
    elim (Bool-cases (bytes_eq f.path from)) [
      | inl hit ↦ elim (Bool-cases (x == id)) [
        | inl own ↦ rw (hit, own) (refl, refl)
        | inr other ↦ rw (hit, other) rest
      ]
      | inr miss ↦ elim (Bool-cases (x == id)) [
        | inl own ↦ rw (miss, own) (refl, refl)
        | inr other ↦ rw (miss, other) rest
      ]
    ]

-- A read that starts found its handle, and not being closed.
pub begin_found :
    (x : ℕ) (m : Handles)
    → (fh_begin_read x m).0 ≡ true
    → (f : FhInfo) × (find x m ≡ some f)
      × (f.closing ≡ false)
      × ((fh_begin_read x m).1 ≡ insert x (record f { active_reads = incr f.active_reads }) m)
unfolding fh_begin_read
begin_found x m h = elim (Option-cases (find x m)) [
  | inl absent ↦ cc (rw (absent, fh_begin_read) at h)
  | inr (f, present) ↦ elim (Bool-cases f.closing) [
    | inl closing ↦ cc (rw (present, closing, fh_begin_read) at h)
    | inr open_still ↦ (f, present, open_still, rw (present, open_still, fh_begin_read) refl)
  ]
]

-- A property of every handle, from the one that a step is about and the others.
pub at_handle {ℓ} :
    (P : ℕ → Type ℓ) (x : ℕ) → P x → ((id : ℕ) → (x == id) ≡ false → P id) → (id : ℕ) → P id
at_handle P x own others id = elim (Bool-cases (x == id)) [
  | inl same ↦ subst P ((==_iff x id).0 same) own
  | inr other ↦ others id other
]

pub count-append : (id : ℕ) (xs ys : List ℕ) → count id (xs ++ ys) ≡ count id xs + count id ys
unfolding count
count-append id [] ys = omega arith
count-append id (x ∷ xs) ys = ground (arith, count-append id xs ys)

pub count-own : (x : ℕ) (xs : List ℕ) → count x (x ∷ xs) ≡ suc (count x xs)
count-own x xs = count_self x x xs ((==_iff x x).1 refl)

pub count-leave_own : (x : ℕ) (xs : List ℕ) → count x (leave x xs) ≡ count x xs - 1
count-leave_own x xs = count-leave x x xs ((==_iff x x).1 refl)

pub pos_injective : (a b : ℕ) → pos a ≡ pos b → a ≡ b
pos_injective a b e = cc e

decr-pos : (z : ℤ) (n : ℕ) → 0 < n → z ≡ pos n → decr z ≡ pos (n - 1)
decr-pos z zero some_reads h = absurd (omega arith)
decr-pos z (suc n) some_reads h = rw h (ap pos (omega arith))

is_zero-pos : (z : ℤ) (n : ℕ) → z ≡ pos n → is_zero z ≡ (n == 0)
is_zero-pos z zero h = rw h refl
is_zero-pos z (suc n) h = rw (h, suc-==-zero n) refl

-- The handle that a read leaves, when it is still tracked.
pub reads_at-fh_end_read :
    (x : ℕ) (m : Handles) (n : ℕ)
    → reads_at (find x m) ≡ pos n
    → 0 < n
    → (reads_at (find x (fh_end_read x m)) ≡ pos (n - 1))
      × (closing_at (find x (fh_end_read x m)) ≡ closing_at (find x m))
unfolding fh_end_read
reads_at-fh_end_read x m n h some_reads = elim (Option-cases (find x m)) [
  | inl absent ↦ absurd (omega (arith, pos_injective 0 n (rw absent at h)))
  | inr (f, present) ↦
      rw
        (
          present,
          fh_end_read,
          find-insert_self x (record f { active_reads = decr f.active_reads }) m,
        )
        (decr-pos f.active_reads n some_reads (rw present at h), refl)
]

pub fh_end_read-other :
    (x id : ℕ) (m : Handles) → (x == id) ≡ false → find id (fh_end_read x m) ≡ find id m
unfolding fh_end_read
fh_end_read-other x id m other = elim (Option-cases (find x m)) [
  | inl absent ↦ rw (absent, fh_end_read) refl
  | inr (f, present) ↦
      rw
        (
          present,
          fh_end_read,
          find-insert x id (record f { active_reads = decr f.active_reads }) m,
          other,
        )
        refl
]

pub closing_at-fh_mark_closing :
    (x : ℕ) (m : Handles)
    → (reads_at (find x (fh_mark_closing x m)) ≡ reads_at (find x m))
      × (closing_at (find x (fh_mark_closing x m)) ≡ true)
unfolding fh_mark_closing
closing_at-fh_mark_closing x m = elim (Option-cases (find x m)) [
  | inl absent ↦ rw (absent, fh_mark_closing, absent) (refl, refl)
  | inr (f, present) ↦
      rw (present, fh_mark_closing, find-insert_self x (record f { closing = true }) m) (refl, refl)
]

pub fh_mark_closing-other :
    (x id : ℕ) (m : Handles) → (x == id) ≡ false → find id (fh_mark_closing x m) ≡ find id m
unfolding fh_mark_closing
fh_mark_closing-other x id m other = elim (Option-cases (find x m)) [
  | inl absent ↦ rw (absent, fh_mark_closing) refl
  | inr (f, present) ↦
      rw (present, fh_mark_closing, find-insert x id (record f { closing = true }) m, other) refl
]

-- A drained handle has no read at the host.
pub fh_drained-reads :
    (x : ℕ) (m : Handles) (n : ℕ) → reads_at (find x m) ≡ pos n → fh_drained x m ≡ (n == 0)
unfolding fh_drained
fh_drained-reads x m n h = elim (Option-cases (find x m)) [
  | inl absent ↦ rw (absent, fh_drained) (zero_reads (rw absent at h))
  | inr (f, present) ↦ rw (present, fh_drained) (is_zero-pos f.active_reads n (rw present at h))
]
  where
    zero_reads : pos 0 ≡ pos n → true ≡ (n == 0)
    zero_reads e = rw (sym (pos_injective 0 n e)) refl
