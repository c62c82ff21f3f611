-- ===== src/RamCache/Flights/Single.antt =====
-- No block is asked for twice at a time, client/src/fs/ram_cache.cpp.
use folder_buddies.Base.{
  not-ltb→le, ltb→lt, ltb, min, ◌<◌, ℕ, suc, ◌-◌, ◌≤◌, ◌≡◌, Bool, true, false, Option, none, some,
  List, [], ◌∷◌, refl, sym, ◌∙◌, ap, inl, inr, arith, Bool-cases, Option-cases, if◌then◌else◌,
}
use mathlib.Core.Path.{subst}
use folder_buddies.Base.Bytes.{Bytes}
use folder_buddies.RamCache.Blocks.{Slot, same_slot, erase_slot, Block, BlockCache, block_get}
use folder_buddies.RamCache.Blocks.Slots.{apart, contains, contains-erase_slot, same_slot_iff}
use folder_buddies.RamCache.Flights.{
  waits, fetches, start_fetch, end_fetch, Flights, FetchStep, FetchReach, serves, sleeps, wakes,
  asks, answers, drops, here, next, no_flights, count_slot, leave_slot,
}

abbrev bit : Bool → ℕ
bit true = 1
bit false = 0

-- Each block in `inflight` is asked for by one thread, every other one by none.
abbrev Inv : List Slot → List Slot → Type 0
Inv asking inflight = (k : Slot) → count_slot k asking ≡ bit (contains k inflight)

count-leave_slot :
    (k x : Slot) (xs : List Slot)
    → count_slot k (leave_slot x xs)
      ≡ (if same_slot x k then count_slot k xs - 1 else count_slot k xs)
unfolding count_slot leave_slot
count-leave_slot k x [] = ground arith
count-leave_slot k x (y ∷ xs) =
    let rest = count-leave_slot k x xs in
    elim (Bool-cases (same_slot y x)) [
      | inl first ↦
          let same : same_slot y k ≡ same_slot x k =
            ap (λ (t : Slot). same_slot t k) ((same_slot_iff y x).0 first) in
          rw (first, same) (suc_or_not (same_slot x k) (count_slot k xs))
      | inr later ↦ elim (Bool-cases (same_slot x k)) [
        | inl own ↦ rw (later, own, apart y x k later own) (rest ∙ rw own refl)
        | inr other ↦
            rw (later, other)
              (ap (λ (n : ℕ). if same_slot y k then suc n else n) (rest ∙ rw other refl))
      ]
    ]
  where
    suc_or_not :
        (b : Bool) (n : ℕ)
        → n ≡ (if b then (if b then suc n else n) - 1 else (if b then suc n else n))
    suc_or_not true n = omega arith
    suc_or_not false n = refl

start-fetches :
    (path : Bytes) (size mtime idx : ℕ) (c : BlockCache) (inflight : List Slot)
    → (start_fetch path size mtime idx c inflight).0 ≡ fetches
    → (contains (path, idx) inflight ≡ false)
      × ((start_fetch path size mtime idx c inflight).1.1 ≡ (path, idx) ∷ inflight)
unfolding start_fetch
start-fetches path size mtime idx c inflight h =
    elim (Option-cases (block_get path size mtime idx c).0) [
      | inr (b, found) ↦ cc (rw (found, start_fetch) at h)
      | inl miss ↦ elim (Bool-cases (contains (path, idx) inflight)) [
        | inl busy ↦ cc (rw (miss, start_fetch, busy) at h)
        | inr free ↦ rw (miss, start_fetch, free) (refl, refl)
      ]
    ]

end_fetch-inflight :
    (path : Bytes) (size mtime idx : ℕ) (got : Option Block) (budget : ℕ) (c : BlockCache)
    (inflight : List Slot)
    → (end_fetch path size mtime idx got budget c inflight).1 ≡ erase_slot (path, idx) inflight
unfolding end_fetch
end_fetch-inflight path size mtime idx none budget c inflight = refl
end_fetch-inflight path size mtime idx (some b) budget c inflight = refl

Inv-asks :
    (x : Slot) (asking inflight : List Slot)
    → contains x inflight ≡ false
    → Inv asking inflight
    → Inv (x ∷ asking) (x ∷ inflight)
unfolding count_slot
Inv-asks x asking inflight free inv k = elim (Bool-cases (same_slot x k)) [
  | inl own ↦
      let none_yet : contains k inflight ≡ false = rw (← (same_slot_iff x k).0 own) free in
      rw own (omega (arith, inv k ∙ ap bit none_yet))
  | inr other ↦ rw other (inv k)
]

Inv-answers :
    (x : Slot) (asking inflight : List Slot)
    → Inv asking inflight
    → Inv (leave_slot x asking) (erase_slot x inflight)
Inv-answers x asking inflight inv k = elim (Bool-cases (same_slot x k)) [
  | inl own ↦
      rw (count-leave_slot k x asking, contains-erase_slot x k inflight, own)
        (at_most (contains k inflight) (inv k))
  | inr other ↦ rw (count-leave_slot k x asking, contains-erase_slot x k inflight, other) (inv k)
]
  where
    at_most : (b : Bool) {n : ℕ} → n ≡ bit b → n - 1 ≡ 0
    at_most true h = omega arith
    at_most false h = omega arith

starts-sleep :
    (path : Bytes) (size mtime idx : ℕ) (c : BlockCache) (inflight : List Slot)
    → (start_fetch path size mtime idx c inflight).0 ≡ waits
    → contains (path, idx) inflight ≡ true
unfolding start_fetch
starts-sleep path size mtime idx c inflight h =
    elim (Option-cases (block_get path size mtime idx c).0) [
      | inr (b, found) ↦ cc (rw (found, start_fetch) at h)
      | inl miss ↦ elim (Bool-cases (contains (path, idx) inflight)) [
        | inl busy ↦ busy
        | inr free ↦ cc (rw (miss, start_fetch, free) at h)
      ]
    ]

-- A thread sleeps only for a block in `inflight`.
abbrev Awaited : List Slot → List Slot → Type 0
Awaited asleep inflight = (k : Slot) → 0 < count_slot k asleep → contains k inflight ≡ true

Awaited-sleeps :
    (x : Slot) (asleep inflight : List Slot)
    → contains x inflight ≡ true
    → Awaited asleep inflight
    → Awaited (x ∷ asleep) inflight
unfolding count_slot
Awaited-sleeps x asleep inflight busy awaited k h = elim (Bool-cases (same_slot x k)) [
  | inl own ↦ rw (← (same_slot_iff x k).0 own) busy
  | inr other ↦ awaited k (rw other at h)
]

Awaited-asks :
    (x : Slot) (asleep inflight : List Slot)
    → Awaited asleep inflight
    → Awaited asleep (x ∷ inflight)
Awaited-asks x asleep inflight awaited k h = elim (Bool-cases (same_slot x k)) [
  | inl own ↦ rw own refl
  | inr other ↦ rw other (awaited k h)
]

leave_slot-fewer : (k x : Slot) (xs : List Slot) → count_slot k (leave_slot x xs) ≤ count_slot k xs
leave_slot-fewer k x xs = elim (Bool-cases (same_slot x k)) [
  | inl own ↦ rw (count-leave_slot k x xs, own) (omega arith)
  | inr other ↦ rw (count-leave_slot k x xs, other) (omega arith)
]

no_sleeper : (inflight : List Slot) → Awaited [] inflight
unfolding count_slot
no_sleeper inflight k h = absurd (omega arith)

record Sound (s : Flights) : Type 0 where
  asked : Inv s.asking s.inflight
  awaited : Awaited s.asleep s.inflight

FetchStep-Sound : {s t : Flights} → FetchStep s t → Sound s → Sound t
FetchStep-Sound (serves path size mtime idx b h) inv = record {
  asked = inv.asked;
  awaited = inv.awaited;
}
FetchStep-Sound {s = s} (sleeps path size mtime idx h) inv = record {
  asked = inv.asked;
  awaited =
      Awaited-sleeps (path, idx) s.asleep s.inflight
        (starts-sleep path size mtime idx s.cache s.inflight h) inv.awaited;
}
FetchStep-Sound {s = s} (wakes k h) inv = record {
  asked = inv.asked;
  awaited = λ j w. inv.awaited j (omega (arith, w, leave_slot-fewer j k s.asleep));
}
FetchStep-Sound {s = s} (asks path size mtime idx h) inv =
    let (free, e) = start-fetches path size mtime idx s.cache s.inflight h in
    record {
      asked =
          subst (λ (l : List Slot). Inv ((path, idx) ∷ s.asking) l) (sym e)
            (Inv-asks (path, idx) s.asking s.inflight free inv.asked);
      awaited =
          subst (λ (l : List Slot). Awaited s.asleep l) (sym e)
            (Awaited-asks (path, idx) s.asleep s.inflight inv.awaited);
    }
FetchStep-Sound {s = s} (answers path size mtime idx got budget h) inv = record {
  asked =
      subst (λ (l : List Slot). Inv (leave_slot (path, idx) s.asking) l)
        (sym (end_fetch-inflight path size mtime idx got budget s.cache s.inflight))
        (Inv-answers (path, idx) s.asking s.inflight inv.asked);
  awaited = no_sleeper (end_fetch path size mtime idx got budget s.cache s.inflight).1;
}
FetchStep-Sound (drops path) inv = record { asked = inv.asked; awaited = inv.awaited }

FetchReach-Sound : {s t : Flights} → FetchReach s t → Sound s → Sound t
FetchReach-Sound here inv = inv
FetchReach-Sound (next r st) inv = FetchStep-Sound st (FetchReach-Sound r inv)

no_flights-Sound : Sound no_flights
unfolding count_slot
no_flights-Sound = record { asked = λ k. refl; awaited = no_sleeper [] }

at_most_one : (b : Bool) {n : ℕ} → n ≡ bit b → n ≤ 1
at_most_one true h = omega arith
at_most_one false h = omega arith

-- However the threads interleave, at most one of them asks the host for a block at a time; and while a
-- thread sleeps for a block, one does ask for it: every answer ends the sleep of the threads that wait
-- for it, so that none sleeps for ever.
pub fetch-single :
    {t : Flights} (path : Bytes) (idx : ℕ)
    → FetchReach no_flights t
    → (count_slot (path, idx) t.asking ≤ 1)
      × (min 1 (count_slot (path, idx) t.asleep) ≤ count_slot (path, idx) t.asking)
fetch-single {t} path idx r =
    let inv : Sound t = FetchReach-Sound r no_flights-Sound in
    let asked : count_slot (path, idx) t.asking ≡ bit (contains (path, idx) t.inflight) =
      inv.asked (path, idx) in
    (
      at_most_one (contains (path, idx) t.inflight) asked,
      elim (Bool-cases (ltb 0 (count_slot (path, idx) t.asleep))) [
        | inl slept ↦
            let flying =
              inv.awaited (path, idx) (ltb→lt 0 (count_slot (path, idx) t.asleep) slept) in
            omega (arith, asked ∙ ap bit flying)
        | inr awake ↦ omega (arith, not-ltb→le 0 (count_slot (path, idx) t.asleep) awake)
      ],
    )
