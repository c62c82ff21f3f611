-- ===== src/Server/Confined.antt =====
-- A path that the server resolves lies in the share.
use mathlib.Core.Path.{ap₂, subst}
use folder_buddies.Base.Bytes.{bytes_eq_iff, bytes_eq, Bytes}
use folder_buddies.Base.{
  is_empty, arith, false≢true, Option, ◌++◌, Bool-cases, true, Option-cases, ◌⊎◌, List, ◌≡◌, ◌≢◌, ℕ,
  refl, [], ◌∷◌, none, some, inl, inr,
}
use folder_buddies.Server.Paths.{
  strip_leading, components, slash, dot_dot, is_separator, step_into, path_key, path_within,
  resolve, resolve_parts, is_below, confine, Host,
}

-- A text that is another one with a separator behind it and anything more.
abbrev pub Under : Bytes → Bytes → Type 0
Under root path =
    (sep : ℕ) × (rest : Bytes) × (is_separator sep ≡ true) × (path ≡ root ++ (sep ∷ rest))

is_below_sound : (r c : Bytes) → is_below r c ≡ true → Under r c
unfolding is_below
is_below_sound [] [] h = absurd (false≢true h)
is_below_sound [] (c ∷ cs) h = (c, cs, h, refl)
is_below_sound (r ∷ rs) [] h = absurd (false≢true h)
is_below_sound (r ∷ rs) (c ∷ cs) h =
    let (sep, rest, mark, e) = is_below_sound rs cs (ground (arith, h)) in
    let same : c ≡ r = ground (arith, h) in (sep, rest, mark, ap₂ ◌∷◌ same e)

-- What `path_within` accepts: the root itself, any absolute path in the root of the file system, and
-- else a path whose key is the root's key, a separator and more.
path_within_sound :
    (root path : Bytes)
    → path_within root path ≡ true
    → path_key root ≢ slash ∷ []
    → (path_key path ≡ path_key root) ⊎ Under (path_key root) (path_key path)
unfolding path_within
path_within_sound root path h top = elim (Bool-cases (bytes_eq (path_key path) (path_key root))) [
  | inl same ↦ inl ((bytes_eq_iff (path_key path) (path_key root)).0 same)
  | inr other ↦ elim (Bool-cases (bytes_eq (path_key root) (slash ∷ []))) [
    | inl slashed ↦ absurd (top ((bytes_eq_iff (path_key root) (slash ∷ [])).0 slashed))
    | inr deep ↦ elim (Bool-cases (is_empty (path_key root))) [
      | inl void ↦ absurd (false≢true (rw (other, void) at h))
      | inr full ↦
          inr (is_below_sound (path_key root) (path_key path) (rw (other, full, deep) at h))
    ]
  ]
]

confined :
    (root path : Bytes) (o : Option Bytes)
    → confine root o ≡ some path
    → path_within root path ≡ true
unfolding confine
confined root path none e = cc
confined root path (some p) e = elim (Bool-cases (path_within root p)) [
  | inl inside ↦
      let same : p ≡ path = cc (rw (inside, confine) at e) in
      subst (λ (t : Bytes). path_within root t ≡ true) same inside
  | inr outside ↦ cc (rw (outside, confine) at e)
]

-- Whatever the file system answers, a path that is resolved below a root other than `/` has the key
-- of the root, or a key that is the root's key, a separator and more.
pub resolve-Under :
    (host : Host) (root rel path : Bytes)
    → path_key root ≢ slash ∷ []
    → resolve host root rel ≡ some path
    → (path_key path ≡ path_key root) ⊎ Under (path_key root) (path_key path)
unfolding resolve
resolve-Under host root rel path top h =
    path_within_sound root path
      (confined root path (resolve_parts host root (components (strip_leading rel)) root) h) top

abbrev pub Among : Bytes → List Bytes → Type 0
Among s [] = ⊥
Among s (p ∷ ps) = (p ≡ s) ⊎ Among s ps

step_into-dot_dot : (host : Host) (root p : Bytes) → step_into host root dot_dot p ≡ none
unfolding step_into bytes_eq
step_into-dot_dot host root p = refl

dot_dot-none :
    (host : Host) (root : Bytes) (parts : List Bytes) (p : Bytes)
    → Among dot_dot parts
    → resolve_parts host root parts p ≡ none
unfolding resolve_parts
dot_dot-none host root [] p h = absurd h
dot_dot-none host root (s ∷ parts) p (inl same) =
    rw (same, step_into-dot_dot host root p, resolve_parts) refl
dot_dot-none host root (s ∷ parts) p (inr later) = elim (Option-cases (step_into host root s p)) [
  | inl refused ↦ rw (refused, resolve_parts) refl
  | inr (q, entered) ↦ rw (entered, resolve_parts) (dot_dot-none host root parts q later)
]

-- A path with a component `..` is refused, wherever it stands and whatever the file system answers.
pub resolve-dot_dot :
    (host : Host) (root rel : Bytes)
    → Among dot_dot (components (strip_leading rel))
    → resolve host root rel ≡ none
unfolding resolve confine
resolve-dot_dot host root rel h =
    rw (dot_dot-none host root (components (strip_leading rel)) root h) refl
