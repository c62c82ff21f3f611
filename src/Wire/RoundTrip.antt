-- ===== src/Wire/RoundTrip.antt =====
-- What `Writer` writes, `Reader` reads back, with any bytes behind it; and what `Reader` accepts is
-- what `Writer` writes.
use mathlib.Core.Path.{subst}
use folder_buddies.Base.{
  append-nil, none, ◌∷◌, Option, [], All, inr, length-take, take-append-drop, inl, take_all, leb,
  drop-length_append, drop, Bool-cases, ◌%◌, append_assoc, ◌≤◌, ◌∙◌, ℕ, ◌^◌, ◌<◌, ◌≡◌, refl, some,
  ◌++◌, arith, length, take_exact, drop_exact, length-append, le→leb,
}
use folder_buddies.Base.Bytes.{
  from_le-lt, le_bytes-from_le, from_le, IsByte, Bytes, le_bytes, length-le_bytes, from_le-le_bytes,
}
use folder_buddies.Wire.{
  get_bytes, pure, continue, put_pod, put_raw, get_attr, put_str, put_bytes, ◌>>=◌, get_header,
  attr_bytes, get_whole, MsgHeader, Parse, WireAttr, header_bytes, get_raw, get_pod, get_str,
}

pub get_raw-append :
    (n : ℕ) (bs rest : Bytes) → length bs ≡ n → get_raw n (bs ++ rest) ≡ (some bs, rest)
unfolding get_raw
get_raw-append n bs rest h = rw (
  le→leb n (length (bs ++ rest)) (omega (arith, length-append bs rest)),
  take_exact n bs rest h,
  drop_exact n bs rest h,
)

pub get_pod-append :
    (n v : ℕ) (rest : Bytes) → v < 256 ^ n → get_pod n (le_bytes n v ++ rest) ≡ (some v, rest)
unfolding get_pod
get_pod-append n v rest h =
    rw (get_raw-append n (le_bytes n v) rest (length-le_bytes n v), from_le-le_bytes n v h)

pub get_str-append :
    (s rest : Bytes)
    → length s < 2 ^ 32
    → get_str (le_bytes 4 (length s) ++ (s ++ rest)) ≡ (some s, rest)
unfolding get_str
get_str-append s rest h =
    rw (get_pod-append 4 (length s) (s ++ rest) h) (get_raw-append (length s) s rest refl)

-- One field in front of a chain of reads.
pub field {ℓ} :
    {A : Type ℓ} (n v : ℕ) (f : ℕ → Parse A) (rest : Bytes)
    → v < 256 ^ n
    → (get_pod n >>= f) (le_bytes n v ++ rest) ≡ f v rest
field n v f rest h = rw (get_pod-append n v rest h)

pub field_raw {ℓ} :
    {A : Type ℓ} (n : ℕ) (bs : Bytes) (f : Bytes → Parse A) (rest : Bytes)
    → length bs ≡ n
    → (get_raw n >>= f) (bs ++ rest) ≡ f bs rest
field_raw n bs f rest h = rw (get_raw-append n bs rest h)

pub field_str {ℓ} :
    {A : Type ℓ} (s : Bytes) (f : Bytes → Parse A) (rest : Bytes)
    → length s < 2 ^ 32
    → (get_str >>= f) (le_bytes 4 (length s) ++ (s ++ rest)) ≡ f s rest
field_str s f rest h = rw (get_str-append s rest h)

pub get_bytes-append :
    (s rest : Bytes)
    → length s < 2 ^ 32
    → get_bytes (le_bytes 4 (length s) ++ (s ++ rest)) ≡ (some s, rest)
unfolding get_bytes
get_bytes-append s rest h =
    rw (get_pod-append 4 (length s) (s ++ rest) h) (get_raw-append (length s) s rest refl)

pub field_bytes {ℓ} :
    {A : Type ℓ} (s : Bytes) (f : Bytes → Parse A) (rest : Bytes)
    → length s < 2 ^ 32
    → (get_bytes >>= f) (le_bytes 4 (length s) ++ (s ++ rest)) ≡ f s rest
field_bytes s f rest h = rw (get_bytes-append s rest h)

-- The values of a header that fit its fields.
pub record FitsHeader (h : MsgHeader) : Type 0 where
  pub magic : h.magic < 256 ^ 4
  pub op : h.op < 256 ^ 2
  pub status : h.status < 256 ^ 2
  pub req_id : h.req_id < 256 ^ 8
  pub len : h.len < 256 ^ 4

pub length-header_bytes : (h : MsgHeader) → length (header_bytes h) ≡ 20
unfolding header_bytes
length-header_bytes h = simp (length-append, length-le_bytes)

whole_enough {ℓ} :
    {A : Type ℓ} (size : ℕ) (fields : Parse A) (r : Bytes)
    → size ≤ length r
    → get_whole size fields r ≡ fields r
unfolding get_whole
whole_enough size fields r h = rw (le→leb size (length r) h)

pub get_header-append :
    (h : MsgHeader) (rest : Bytes)
    → FitsHeader h
    → get_header (header_bytes h ++ rest) ≡ (some h, rest)
unfolding get_header
get_header-append h rest w =
    whole_enough 20 _ (header_bytes h ++ rest)
      (omega (arith, length-append (header_bytes h) rest, length-header_bytes h))
    ∙ unfold header_bytes in
      simp append_assoc (
        field 4 h.magic _ _ w.magic
        ∙ field 2 h.op _ _ w.op
        ∙ field 2 h.status _ _ w.status
        ∙ field 8 h.req_id _ _ w.req_id
        ∙ field 4 h.len _ _ w.len)

pub record FitsAttr (a : WireAttr) : Type 0 where
  pub ino : a.ino < 256 ^ 8
  pub size : a.size < 256 ^ 8
  pub blocks : a.blocks < 256 ^ 8
  pub atime : a.atime < 256 ^ 8
  pub mtime : a.mtime < 256 ^ 8
  pub ctime : a.ctime < 256 ^ 8
  pub mode : a.mode < 256 ^ 4
  pub nlink : a.nlink < 256 ^ 4
  pub uid : a.uid < 256 ^ 4
  pub gid : a.gid < 256 ^ 4

pub length-attr_bytes : (a : WireAttr) → length (attr_bytes a) ≡ 64
unfolding attr_bytes
length-attr_bytes a = simp (length-append, length-le_bytes)

-- Attributes whose fields fit their widths are read back from their packed bytes, and the bytes behind
-- them are left over.
pub get_attr-append :
    (a : WireAttr) (rest : Bytes) → FitsAttr a → get_attr (attr_bytes a ++ rest) ≡ (some a, rest)
unfolding get_attr
get_attr-append a rest w =
    whole_enough 64 _ (attr_bytes a ++ rest)
      (omega (arith, length-append (attr_bytes a) rest, length-attr_bytes a))
    ∙ unfold attr_bytes in
      simp append_assoc (
        field 8 a.ino _ _ w.ino
        ∙ field 8 a.size _ _ w.size
        ∙ field 8 a.blocks _ _ w.blocks
        ∙ field 8 a.atime _ _ w.atime
        ∙ field 8 a.mtime _ _ w.mtime
        ∙ field 8 a.ctime _ _ w.ctime
        ∙ field 4 a.mode _ _ w.mode
        ∙ field 4 a.nlink _ _ w.nlink
        ∙ field 4 a.uid _ _ w.uid
        ∙ field 4 a.gid _ _ w.gid)

small_mod : (n : ℕ) → n < 2 ^ 32 → n % 2 ^ 32 ≡ n
small_mod n h = omega arith

-- `put_str` puts the length and then the text behind what the buffer holds.
pub put_str_lem :
    (s b : Bytes) → length s < 2 ^ 32 → put_str s b ≡ b ++ (le_bytes 4 (length s) ++ s)
unfolding put_str put_raw put_pod
put_str_lem s b h =
    rw (small_mod (length s) h, take_all (length s) s (omega arith)) (append_assoc b _ s)

pub put_bytes_lem : (p b : Bytes) → put_bytes p (length p) b ≡ b ++ (le_bytes 4 (length p) ++ p)
unfolding put_bytes put_raw put_pod
put_bytes_lem p b = rw (take_all (length p) p (omega arith)) (append_assoc b _ p)

-- A text of less than 4 GiB that `Writer.str` appends to any buffer leaves the buffer in front, and
-- `Reader.str` reads it back from behind the buffer, with whatever follows it left over.
pub get_str-put_str :
    (s b rest : Bytes)
    → length s < 2 ^ 32
    → get_str (drop (length b) (put_str s b) ++ rest) ≡ (some s, rest)
get_str-put_str s b rest h =
    rw (put_str_lem s b h, drop-length_append b (le_bytes 4 (length s) ++ s), append_assoc)
      (get_str-append s rest h)

-- Inversion of the reads.
get_raw-some :
    (n : ℕ) (r bs rest : Bytes) → get_raw n r ≡ (some bs, rest) → (r ≡ bs ++ rest) × (length bs ≡ n)
unfolding get_raw
get_raw-some n r bs rest h = elim (Bool-cases (leb n (length r))) [
  | inl fits ↦ ground (arith, take-append-drop n r, length-take n r)
  | inr short ↦ ground arith
]

All-front : (xs ys : Bytes) → All IsByte (xs ++ ys) → All IsByte xs
All-front [] ys h = tt
All-front (x ∷ xs) ys h = (h.0, All-front xs ys h.1)

-- A chain of reads succeeds only if each of them does.
continue-some {ℓ κ} :
    {A : Type ℓ} {B : Type κ} (q : Option A × Bytes) (f : A → Parse B) (b : B) (rest : Bytes)
    → continue q.0 f q.1 ≡ (some b, rest)
    → (a : A) × (r' : Bytes) × (q ≡ (some a, r')) × (f a r' ≡ (some b, rest))
continue-some (some a, r') f b rest h = (a, r', refl, h)
continue-some (none, r') f b rest h = cc

pub >>=-some {ℓ κ} :
    {A : Type ℓ} {B : Type κ} (m : Parse A) (f : A → Parse B) (r : Bytes) (b : B) (rest : Bytes)
    → (m >>= f) r ≡ (some b, rest)
    → (a : A) × (r' : Bytes) × (m r ≡ (some a, r')) × (f a r' ≡ (some b, rest))
>>=-some m f r b rest h = continue-some (m r) f b rest h

pub get_pod-some :
    (n : ℕ) (r : Bytes) (v : ℕ) (rest : Bytes)
    → All IsByte r
    → get_pod n r ≡ (some v, rest)
    → (r ≡ le_bytes n v ++ rest) × (v < 256 ^ n)
unfolding get_pod
get_pod-some n r v rest bytes h =
    let (bs, r', e, p) = >>=-some (get_raw n) (λ bs. pure (from_le bs)) r v rest h in
    let (cut, len) = get_raw-some n r bs r' e in
    let own : All IsByte bs = All-front bs r' (subst (All IsByte) cut bytes) in
    let back : le_bytes (length bs) (from_le bs) ≡ bs = le_bytes-from_le bs own in
    (cc, ground (arith, from_le-lt bs own))

-- `Reader.str` accepts nothing but what `Writer.str` writes: from a buffer of bytes it takes exactly
-- the length and the text.
pub get_str_only :
    (r s rest : Bytes) → All IsByte r → get_str r ≡ (some s, rest) → r ≡ put_str s [] ++ rest
unfolding get_str
get_str_only r s rest bytes h =
    let (n, r', e, p) = >>=-some (get_pod 4) get_raw r s rest h in
    let (cut, len) = get_raw-some n r' s rest p in
    let (front, small) = get_pod-some 4 r n r' bytes e in
    let written : put_str s [] ≡ le_bytes 4 (length s) ++ s = put_str_lem s [] (omega arith) in
    let regroup : (le_bytes 4 (length s) ++ s) ++ rest ≡ le_bytes 4 (length s) ++ (s ++ rest) =
      append_assoc (le_bytes 4 (length s)) s rest in
    cc

-- A header alone.
pub get_header-header_bytes :
    (h : MsgHeader) → FitsHeader h → get_header (header_bytes h) ≡ (some h, [])
get_header-header_bytes h w = rw append-nil at (get_header-append h [] w)
