-- ===== src/Signaling/RoomCode.antt =====
-- Room codes, client/src/net/signaling.cpp: drawing one, recognising one, and its public half.
pub mod Draw
use folder_buddies.Base.{
  not, is_some, leb, ltb, ◌==◌, ◌%◌, true, ◌++◌, false, ◌&&◌, if◌then◌else◌, take, Option, ◌∷◌,
  List, length, Bool, ℕ, none, some, [],
}
use folder_buddies.Base.Bytes.{Bytes}
use folder_buddies.Base91.{alphabet_at, base91_is_clean, is_space}

-- The lengths of the two halves of a code, by its length.
unfoldable pub code_split : ℕ → Option (ℕ × ℕ)
code_split total = if total == 6 then some (4, 2) else (if total == 16 then some (8, 8) else none)

-- The text without its white space.
unfoldable pub clean_one_line : Bytes → Bytes
clean_one_line [] = []
clean_one_line (c ∷ s) = let out = clean_one_line s in if is_space c then out else c ∷ out

unfoldable pub looks_like_room_code : Bytes → Bool
looks_like_room_code text =
    let s = clean_one_line text in is_some (code_split (length s)) && base91_is_clean s

unfoldable pub room_lookup_id : Bytes → Bytes
room_lookup_id code = elim (code_split (length code)) [
  | none ↦ code
  | some halves ↦ take halves.0 code
]

-- The loop over one draw of random bytes: kLimit is 256 - 256 % 91.
unfoldable pub push_draw : ℕ → Bytes → Bytes → Bytes
push_draw n [] code = code
push_draw n (b ∷ rb) code =
    let skipped = leb 182 b in
    let code' = if skipped then code else code ++ (alphabet_at (b % 91) ∷ []) in
    let more = push_draw n rb code' in if not skipped && length code' == n then code' else more

-- The loop that draws until the code is long enough; `none` if the draws given are too few.
unfoldable pub draw_code : ℕ → List Bytes → Bytes → Option Bytes
draw_code n [] code = if ltb (length code) n then none else some code
draw_code n (rb ∷ draws) code =
    let more = draw_code n draws (push_draw n rb code) in
    if ltb (length code) n then more else some code

unfoldable pub random_room_code : Bool → List Bytes → Option Bytes
random_room_code long_code draws = draw_code (if long_code then 16 else 6) draws []
