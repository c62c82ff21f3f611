-- ===== src/Server/Paths.antt =====
-- The paths of a share, client/src/server/server.cpp on POSIX: `path_key`, `path_within` and
-- `Server::resolve`. Paths are texts; the file system answers through `Host`.
use mathlib.Core.List.{reverse}
use folder_buddies.Base.{
  is_empty, ◌&&◌, false, ◌||◌, true, ◌==◌, ◌++◌, Bool, if◌then◌else◌, Option, ◌∷◌, List, ℕ, none,
  some, [],
}
use folder_buddies.Base.Bytes.{Bytes, codes, bytes_eq}

abbrev pub slash : ℕ
slash = 47

abbrev pub backslash : ℕ
backslash = 92

abbrev pub is_separator : ℕ → Bool
is_separator c = c == slash || c == backslash

abbrev pub dot : Bytes
dot = codes "."

abbrev pub dot_dot : Bytes
dot_dot = codes ".."

-- The components of a path; an empty one stands for a separator that is repeated or last.
abbrev pub onto_first : ℕ → List Bytes → List Bytes
onto_first c [] = (c ∷ []) ∷ []
onto_first c (p ∷ ps) = (c ∷ p) ∷ ps

unfoldable pub components : Bytes → List Bytes
components [] = [] ∷ []
components (c ∷ s) = let rest = components s in if c == slash then [] ∷ rest else onto_first c rest

unfoldable pub joined_path : List Bytes → Bytes
joined_path [] = []
joined_path (p ∷ []) = p
joined_path (p ∷ q ∷ ps) = p ++ (slash ∷ joined_path (q ∷ ps))

-- `..` takes back the component before it, which the list has first.
unfoldable pub up : Bool → List Bytes → List Bytes
up absolute [] = if absolute then [] else dot_dot ∷ []
up absolute (p ∷ ps) = if bytes_eq p dot_dot then dot_dot ∷ p ∷ ps else ps

unfoldable pub normal_parts : Bool → List Bytes → List Bytes → List Bytes
normal_parts absolute [] done = reverse done
normal_parts absolute (p ∷ ps) done =
    let next =
      if is_empty p || bytes_eq p dot
      then done
      else if bytes_eq p dot_dot
      then up absolute done
      else p ∷ done in
    normal_parts absolute ps next

abbrev pub is_absolute : Bytes → Bool
is_absolute [] = false
is_absolute (c ∷ s) = c == slash

-- `lexically_normal`, without the separator that it may leave at the end.
unfoldable pub lexically_normal : Bytes → Bytes
lexically_normal s =
    let absolute = is_absolute s in
    let text = joined_path (normal_parts absolute (components s) []) in
    if is_empty s
    then []
    else if absolute
    then slash ∷ text
    else if is_empty text
    then dot
    else text

-- Separators are dropped from the end of a text, which is given from its end.
unfoldable pub strip_reversed : Bytes → Bytes
strip_reversed [] = []
strip_reversed (c ∷ []) = c ∷ []
strip_reversed (c ∷ d ∷ s) =
    let rest = strip_reversed (d ∷ s) in if is_separator c then rest else c ∷ d ∷ s

unfoldable pub path_key : Bytes → Bytes
path_key p = reverse (strip_reversed (reverse (lexically_normal p)))

-- `c.rfind(r, 0) == 0` and the character behind it is a separator.
unfoldable pub is_below : Bytes → Bytes → Bool
is_below [] [] = false
is_below [] (c ∷ cs) = is_separator c
is_below (r ∷ rs) [] = false
is_below (r ∷ rs) (c ∷ cs) = r == c && is_below rs cs

unfoldable pub path_within : Bytes → Bytes → Bool
path_within root candidate =
    let r = path_key root in
    let c = path_key candidate in
    if bytes_eq c r
    then true
    else if is_empty r
    then false
    else if bytes_eq r (slash ∷ [])
    then is_absolute c
    else is_below r c

pub data Existence : Type 0 where
  there : Existence
  missing : Existence
  unknown : Existence

-- What the file system answers about a path; `none` is an error.
pub record Host : Type 0 where
  pub exists : Bytes → Existence
  pub is_link : Bytes → Bool
  pub canonical : Bytes → Option Bytes

unfoldable pub strip_leading : Bytes → Bytes
strip_leading [] = []
strip_leading (c ∷ s) = let rest = strip_leading s in if is_separator c then rest else c ∷ s

abbrev pub ends_with_slash : Bytes → Bool
ends_with_slash [] = false
ends_with_slash (c ∷ []) = c == slash
ends_with_slash (c ∷ d ∷ s) = ends_with_slash (d ∷ s)

-- `p /= s` for a relative `s`.
abbrev pub append_part : Bytes → Bytes → Bytes
append_part p s = if is_empty p || ends_with_slash p then p ++ s else p ++ (slash ∷ s)

-- The path so far once one more component is known not to leave the share.
unfoldable pub enter : Host → Bytes → Bytes → Option Bytes
enter host base p = elim (host.exists p) [
  | there ↦ if host.is_link p then none else elim (host.canonical p) [
    | none ↦ none
    | some canon ↦ if path_within base canon then some canon else none
  ]
  | missing ↦ some p
  | unknown ↦ none
]

-- The path with one more component.
unfoldable pub step_into : Host → Bytes → Bytes → Bytes → Option Bytes
step_into host base s p =
    if is_empty s || bytes_eq s dot
    then some p
    else if bytes_eq s dot_dot
    then none
    else enter host base (append_part p s)

unfoldable pub resolve_parts : Host → Bytes → List Bytes → Bytes → Option Bytes
resolve_parts host base [] p = some p
resolve_parts host base (s ∷ parts) p = elim (step_into host base s p) [
  | none ↦ none
  | some q ↦ resolve_parts host base parts q
]

-- The last check, on the whole path.
unfoldable pub confine : Bytes → Option Bytes → Option Bytes
confine base none = none
confine base (some p) = if path_within base p then some p else none

unfoldable pub resolve : Host → Bytes → Bytes → Option Bytes
resolve host root rel = confine root (resolve_parts host root (components (strip_leading rel)) root)
