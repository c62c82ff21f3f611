-- ===== src/RamCache/Budget.antt =====
-- How much memory the block cache may take: `compute_block_budget`, client/src/fs/ram_cache.cpp.
use folder_buddies.Base.{arith, ◌≡◌, ltb, ◌<◌, leb, ◌/◌, ◌≤◌, min, ◌*◌, if◌then◌else◌, ℕ}

abbrev pub mib : ℕ
mib = 1024 * 1024

abbrev pub gib : ℕ
gib = 1024 * mib

pub record RamInfo : Type 0 where
  pub total : ℕ
  pub avail : ℕ

abbrev pub cap : ℕ → ℕ
cap total =
    if leb total (4 * gib)
    then 256 * mib
    else if leb total (8 * gib)
    then 512 * mib
    else if leb total (16 * gib)
    then gib
    else if leb total (32 * gib)
    then 2 * gib
    else 4 * gib

unfoldable pub compute_block_budget : RamInfo → ℕ
compute_block_budget r =
    let budget = min (min (r.avail / 4) (r.total / 10)) (cap r.total) in
    if ltb r.avail (512 * mib)
    then 0
    else if ltb r.avail gib
    then min budget (64 * mib)
    else if ltb r.avail (2 * gib)
    then min budget (128 * mib)
    else budget

cap-le : (total : ℕ) → cap total ≤ 4 * gib
cap-le total = ground arith

-- The budget is at most a quarter of the memory that is available, a tenth of all memory and 4 GiB,
-- and there is none below 512 MiB of available memory.
pub compute_block_budget-bounds :
    (r : RamInfo)
    → (4 * compute_block_budget r ≤ r.avail)
      × (10 * compute_block_budget r ≤ r.total)
      × (compute_block_budget r ≤ 4 * gib)
      × (r.avail < 512 * mib → compute_block_budget r ≡ 0)
unfolding compute_block_budget
compute_block_budget-bounds r =
    let bound : cap r.total ≤ 4 * gib = cap-le r.total in
    (ground arith, ground arith, ground arith, λ low. ground arith)

-- With the same memory in all, less available memory never gives a larger budget.
pub compute_block_budget_mono :
    (total a b : ℕ)
    → a ≤ b
    → compute_block_budget (record { total = total; avail = a })
      ≤ compute_block_budget (record { total = total; avail = b })
unfolding compute_block_budget
compute_block_budget_mono total a b h = ground arith
