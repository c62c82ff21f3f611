-- ===== src/RamCache/Blocks/Valid/Evict.antt =====
-- Eviction keeps the invariant and reaches the budget.
use folder_buddies.RamCache.Blocks.Slots.{same_slot_iff, contains, same_slot_self}
use folder_buddies.Base.Totals.{
  total-insert, total-erase, Every-insert, Distinct-insert, total, Every-erase, Distinct-erase,
  Every, Distinct,
}
use folder_buddies.Base.Bytes.{bytes_eq_refl, bytes_eq_iff, bytes_eq, Bytes}
use folder_buddies.Base.{
  is_some, false, ◌||◌, sym, ◌∙◌, Option, Option-cases, not-ltb→le, ltb, ◌≤◌, List, ap, arith,
  suc-==-zero, ◌+◌, false≢true, if◌then◌else◌, true, ◌≡◌, ◌==◌, Bool-cases, length, ℕ, refl, [],
  ◌∷◌, none, some, inl, inr,
}
use folder_buddies.Base.Map.{
  same_refl, find_empty, find-insert, find-erase, erase, find, Map, nat_key, bytes_key,
}
use folder_buddies.RamCache.Blocks.{
  BlockCache, Slot, same_slot, blocks_of, Block, FileBlocks, evict_block, evict_loop,
  evict_to_budget, drop_block,
}
use folder_buddies.RamCache.Blocks.Valid.{block_size, file_size, block_at, NoRepeats, Valid}

pub empty_of_length : (m : Map ℕ Block) → (length m == 0) ≡ true → m ≡ []
empty_of_length [] h = refl
empty_of_length (x ∷ m) h = absurd (false≢true (rw suc-==-zero at h))

pub no_blocks : total {K = ℕ} block_size [] ≡ 0
unfolding total
no_blocks = refl

module _ (path : Bytes) (idx : ℕ) (files : Map Bytes FileBlocks) (f : FileBlocks) (b : Block) where
  pub drop_block-find :
      (q : Bytes)
      → blocks_of (find q (drop_block path f idx files))
        ≡ (if bytes_eq path q then erase idx f.blocks else blocks_of (find q files))
  unfolding drop_block
  drop_block-find q = elim (Bool-cases (length (erase idx f.blocks) == 0)) [
    | inl empty ↦
        rw (empty, find-erase path q files, empty_of_length (erase idx f.blocks) empty)
          (ground arith)
    | inr full ↦ rw (full, find-insert path q _ files) (ground arith)
  ]

  drop_block-block_at :
      (k : Slot)
      → find path files ≡ some f
      → block_at (drop_block path f idx files) k
        ≡ (if same_slot (path, idx) k then none else block_at files k)
  unfolding same_slot
  drop_block-block_at k present = elim (Bool-cases (bytes_eq path k.0)) [
    | inl own ↦
        let here : find k.0 files ≡ some f = rw (← (bytes_eq_iff path k.0).0 own) present in
        rw (drop_block-find k.0, own, here, find-erase idx k.1 f.blocks) refl
    | inr other ↦ rw (drop_block-find k.0, other) refl
  ]

  pub drop_block-total :
      Distinct files
      → Every NoRepeats files
      → find path files ≡ some f
      → find idx f.blocks ≡ some b
      → total file_size (drop_block path f idx files) + block_size b ≡ total file_size files
  unfolding drop_block
  drop_block-total names indices present held =
      let inner : file_size (record f { blocks = erase idx f.blocks }) + block_size b
          ≡ file_size f =
        rw held at (total-erase block_size idx f.blocks (indices path f present)) in
      elim (Bool-cases (length (erase idx f.blocks) == 0)) [
        | inl empty ↦ rw empty (
            omega (
              arith,
              inner,
              rw present at (total-erase file_size path files names),
              ap (total block_size) (empty_of_length (erase idx f.blocks) empty),
              no_blocks,
            ))
        | inr full ↦ rw full (
            omega (
              arith,
              inner,
              rw present at (
                  total-insert file_size path (record f { blocks = erase idx f.blocks }) files
                    names),
            ))
      ]

  drop_block-Distinct : Distinct files → Distinct (drop_block path f idx files)
  unfolding drop_block
  drop_block-Distinct names = elim (Bool-cases (length (erase idx f.blocks) == 0)) [
    | inl empty ↦ rw empty (Distinct-erase path files names)
    | inr full ↦ rw full (Distinct-insert path _ files names)
  ]

  drop_block-Every :
      Every NoRepeats files
      → find path files ≡ some f
      → Every NoRepeats (drop_block path f idx files)
  unfolding drop_block
  drop_block-Every indices present = elim (Bool-cases (length (erase idx f.blocks) == 0)) [
    | inl empty ↦ rw empty (Every-erase NoRepeats path files indices)
    | inr full ↦ rw full (
        Every-insert NoRepeats path (record f { blocks = erase idx f.blocks }) files
          (Distinct-erase idx f.blocks (indices path f present)) indices)
  ]

pub listed_block :
    (k : Slot) (c : BlockCache)
    → Valid c
    → contains k c.lru ≡ true
    → (f : FileBlocks) × (b : Block) × (find k.0 c.files ≡ some f) × (find k.1 f.blocks ≡ some b)
listed_block k c v h = elim (Option-cases (find k.0 c.files)) [
  | inl absent ↦ absurd (false≢true (rw (v.listed k, absent, find_empty {V = Block} k.1) at h))
  | inr (f, present) ↦ elim (Option-cases (find k.1 f.blocks)) [
    | inl lost ↦ absurd (false≢true (rw (v.listed k, present, lost) at h))
    | inr (b, held) ↦ (f, b, present, held)
  ]
]

abbrev pub rest_of : Slot → List Slot → Map Bytes FileBlocks → ℕ → ℕ → BlockCache
rest_of k lru files cur evictions = record {
  files = (evict_block k files cur).0;
  lru = lru;
  cur_bytes = (evict_block k files cur).1;
  evictions = evictions;
}

others-listed :
    (k a : Slot) (lru : List Slot) (held : Option Block)
    → (same_slot k a || contains a lru) ≡ is_some held
    → contains k lru ≡ false
    → contains a lru ≡ is_some (if same_slot k a then none else held)
others-listed k a lru held h fresh = elim (Bool-cases (same_slot k a)) [
  | inl own ↦ rw own (rw ((same_slot_iff k a).0 own) at fresh)
  | inr other ↦ rw other (rw other at h)
]

-- One round of the eviction.
pub evict_block-Valid :
    (k : Slot) (lru : List Slot) (files : Map Bytes FileBlocks) (cur e e' : ℕ)
    → Valid (record { files = files; lru = k ∷ lru; cur_bytes = cur; evictions = e })
    → Valid (rest_of k lru files cur e')
unfolding evict_block
evict_block-Valid (path, idx) lru files cur e e' v =
    let (f, b, present, held) =
      listed_block (path, idx) _ v (rw (same_slot_self (path, idx)) refl) in
    rw (present, held, evict_block)
      (record {
        names = drop_block-Distinct path idx files f b v.names;
        indices = drop_block-Every path idx files f b v.indices present;
        counted =
            omega (
              arith,
              v.counted,
              drop_block-total path idx files f b v.names v.indices present held,
            );
        listed = λ a.
            others-listed (path, idx) a lru _ (v.listed a) v.once.0
            ∙ sym (ap is_some (drop_block-block_at path idx files f b a present));
        once = v.once.1;
      })

evict_loop-Valid :
    (budget : ℕ) (lru : List Slot) (files : Map Bytes FileBlocks) (cur e : ℕ)
    → Valid (record { files = files; lru = lru; cur_bytes = cur; evictions = e })
    → Valid (evict_loop budget lru files cur e)
unfolding evict_loop
evict_loop-Valid budget [] files cur e v = v
evict_loop-Valid budget (k ∷ lru) files cur e v = elim (Bool-cases (ltb budget cur)) [
  | inl over ↦
      rw over
        (evict_loop-Valid budget lru _ _ (e + 1) (evict_block-Valid k lru files cur e (e + 1) v))
  | inr within ↦ rw within v
]

-- Files that hold no block weigh nothing.
pub nothing_held :
    (files : Map Bytes FileBlocks)
    → Distinct files
    → ((k : Slot) → is_some (block_at files k) ≡ false)
    → total file_size files ≡ 0
unfolding total find
nothing_held [] names none_held = refl
nothing_held ((a, f) ∷ files) names none_held = omega (
  arith,
  own f.blocks (λ i. rw (bytes_eq_refl a) at (none_held (a, i))),
  nothing_held files names.1 later,
)
  where
    later : (k : Slot) → is_some (block_at files k) ≡ false
    later k = elim (Bool-cases (bytes_eq a k.0)) [
      | inl same ↦
          let absent : find k.0 files ≡ none = rw (← (bytes_eq_iff a k.0).0 same) names.0 in
          rw absent refl
      | inr other ↦ rw other at (none_held k)
    ]

    own : (m : Map ℕ Block) → ((i : ℕ) → is_some (find i m) ≡ false) → total block_size m ≡ 0
    own [] h = refl
    own ((i, b) ∷ m) h = absurd (false≢true (sym (h i) ∙ rw (same_refl i) refl))

evict_loop-budget :
    (budget : ℕ) (lru : List Slot) (files : Map Bytes FileBlocks) (cur e : ℕ)
    → Valid (record { files = files; lru = lru; cur_bytes = cur; evictions = e })
    → (evict_loop budget lru files cur e).cur_bytes ≤ budget
unfolding evict_loop
evict_loop-budget budget [] files cur e v =
    omega (arith, v.counted, nothing_held files v.names (λ k. sym (v.listed k)))
evict_loop-budget budget (k ∷ lru) files cur e v = elim (Bool-cases (ltb budget cur)) [
  | inl over ↦
      rw over
        (evict_loop-budget budget lru _ _ (e + 1) (evict_block-Valid k lru files cur e (e + 1) v))
  | inr within ↦ rw within (not-ltb→le budget cur within)
]

-- Eviction to a budget keeps the invariant and ends with no more bytes than the budget.
pub evict_to_budget-budget :
    (budget : ℕ) (c : BlockCache)
    → Valid c
    → Valid (evict_to_budget budget c) × ((evict_to_budget budget c).cur_bytes ≤ budget)
unfolding evict_to_budget
evict_to_budget-budget budget c v = (
  evict_loop-Valid budget c.lru c.files c.cur_bytes c.evictions v,
  evict_loop-budget budget c.lru c.files c.cur_bytes c.evictions v,
)
