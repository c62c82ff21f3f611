-- ===== src/RamCache/Request/Keeps/Reads.antt =====
-- A read keeps the cache well formed, client/src/fs/ram_cache.cpp.
use folder_buddies.Base.{
  ◌⊎◌, ℕ, ◌-◌, ◌+◌, ◌%◌, ◌^◌, ◌&&◌, leb, ltb, not, ◌≡◌, refl, inl, inr, Option-cases, Bool-cases,
  [], ◌==◌, length,
}
use folder_buddies.Base.Bytes.{Bytes}
use folder_buddies.Base.Map.{find, nat_key}
use folder_buddies.Wire.{WireAttr, get_attr, put_str}
use folder_buddies.Wire.Op.{Op, op_code}
use folder_buddies.RamCache.Timed.{meta_ttl, meta_lookup, meta_store}
use folder_buddies.RamCache.Blocks.{block_get}
use folder_buddies.RamCache.Blocks.Valid.Put.{block_get-Valid, block_put-kept}
use folder_buddies.RamCache.Handles.{fh_path, fh_begin_read}
use folder_buddies.RamCache.Read.{Fetched, read_blocks, read, failed, Reply}
use folder_buddies.RamCache.Read.Whole.{read_blocks-keeps}
use folder_buddies.RamCache.Prefetch.{schedule_read_ahead}
use folder_buddies.RamCache.Prefetch.Bounds.{schedule_read_ahead-Within}
use folder_buddies.RamCache.State.{Ram, RemoteFs, budget_now}
use folder_buddies.RamCache.Fetch.{
  Answer, forward, fetch_host, store_fetched, block_fetch, use_version, ask_version, find_version,
  ensure_version, read_args, read_version, do_read,
}
use folder_buddies.RamCache.Request.Keeps.{WellFormed}
use folder_buddies.RamCache.Request.Keeps.Effects.{
  meta_store-Bounded, meta_lookup-Bounded, with_caches,
}

Reply-cases : (r : Reply) → ((status : ℕ) × (r ≡ failed status)) ⊎ ((out : Bytes) × (r ≡ read out))
Reply-cases (failed status) = inl (status, refl)
Reply-cases (read out) = inr (out, refl)

module _ {W : Type 0} (host : RemoteFs W) where
  budget_now-kept : (w : W) (s : Ram) → WellFormed s → WellFormed (budget_now host w s).1
  unfolding budget_now
  budget_now-kept w s v = elim (Bool-cases (ltb 2000 (host.now w - s.budget_checked_at))) [
    | inl due ↦ rw due (record { blocks = v.blocks; caches = v.caches; queue = v.queue })
    | inr recent ↦ rw recent v
  ]

  fetch_host-kept :
      (fh_id idx : ℕ) (st : Ram × W)
      → WellFormed st.0
      → WellFormed (fetch_host host fh_id idx st).1.0
  unfolding fetch_host forward
  fetch_host-kept fh_id idx (s, w) v = elim (Bool-cases (fh_begin_read fh_id s.handles).0) [
    | inl on ↦ rw on (record { blocks = v.blocks; caches = v.caches; queue = v.queue })
    | inr refused ↦ rw refused v
  ]

  store_fetched-kept :
      (path : Bytes) (size mtime idx : ℕ) (answer : Answer) (st : Ram × W)
      → WellFormed st.0
      → WellFormed (store_fetched host path size mtime idx answer st).1.0
  unfolding store_fetched
  store_fetched-kept path size mtime idx (status, resp) (s, w) v =
      let (budget, s') = budget_now host w s in
      let v' : WellFormed s' = budget_now-kept w s v in
      elim (Bool-cases (not (status == 0))) [
        | inl refused ↦ rw refused v
        | inr fine ↦ rw fine (record {
          blocks = block_put-kept path size mtime idx _ budget s'.blocks v'.blocks;
          caches = v'.caches;
          queue = v'.queue;
        })
      ]

  block_fetch-kept :
      (path : Bytes) (fh_id size mtime idx : ℕ) (st : Ram × W)
      → WellFormed st.0
      → WellFormed (block_fetch host path fh_id size mtime idx st).1.0
  unfolding block_fetch
  block_fetch-kept path fh_id size mtime idx (s, w) v =
      let s' : Ram = record s { blocks = (block_get path size mtime idx s.blocks).1 } in
      let v' : WellFormed s' = record {
        blocks = block_get-Valid path size mtime idx s.blocks v.blocks;
        caches = v.caches;
        queue = v.queue;
      } in
      elim (Option-cases (block_get path size mtime idx s.blocks).0) [
        | inl miss ↦
            rw (miss, block_fetch)
              (store_fetched-kept path size mtime idx (fetch_host host fh_id idx (s', w)).0 _
                (fetch_host-kept fh_id idx (s', w) v'))
        | inr (b, hit) ↦ rw (hit, block_fetch) v'
      ]

  use_version-kept :
      (fh_id : ℕ) (a : WireAttr) (st : Ram × W)
      → WellFormed st.0
      → WellFormed (use_version host fh_id a st).1.0
  unfolding use_version
  use_version-kept fh_id a (s, w) v = record {
    blocks = v.blocks;
    caches = v.caches;
    queue = v.queue;
  }

  ask_version-kept :
      (fh_id : ℕ) (path : Bytes) (st : Ram × W)
      → WellFormed st.0
      → WellFormed (ask_version host fh_id path st).1.0
  unfolding ask_version forward
  ask_version-kept fh_id path (s, w) v =
      let ((status, resp), w') = host.request (op_code Op.getattr) (put_str path []) w in
      elim (Bool-cases (status == 0)) [
        | inr refused ↦ rw refused v
        | inl fine ↦ elim (Option-cases (get_attr resp).0) [
          | inl broken ↦ rw (fine, broken, ask_version) v
          | inr (a, got) ↦
              rw (fine, got, ask_version)
                (use_version-kept fh_id a
                  (record s { caches = meta_store (host.now w') path a s.caches }, w')
                  (with_caches s _ v (meta_store-Bounded path s.caches v.caches (host.now w') a)))
        ]
      ]

  find_version-kept :
      (fh_id : ℕ) (path : Bytes) (st : Ram × W)
      → WellFormed st.0
      → WellFormed (find_version host fh_id path st).1.0
  unfolding find_version
  find_version-kept fh_id path (s, w) v =
      let (got, caches) = meta_lookup (host.now w) path s.caches in
      let s' : Ram = record s { caches = caches } in
      let v' : WellFormed s' =
        with_caches s caches v (meta_lookup-Bounded path s.caches v.caches (host.now w)) in
      elim (Option-cases got) [
        | inl miss ↦ rw (miss, find_version) (ask_version-kept fh_id path (s', w) v')
        | inr (a, hit) ↦ rw (hit, find_version) (use_version-kept fh_id a (s', w) v')
      ]

  ensure_version-kept :
      (fh_id : ℕ) (path : Bytes) (st : Ram × W)
      → WellFormed st.0
      → WellFormed (ensure_version host fh_id path st).1.0
  unfolding ensure_version
  ensure_version-kept fh_id path (s, w) v = elim (Option-cases (find fh_id s.handles)) [
    | inl absent ↦ rw (absent, ensure_version) (find_version-kept fh_id path (s, w) v)
    | inr (f, present) ↦ elim (Bool-cases (f.have_ver && leb (host.now w - f.ver_at) meta_ttl)) [
      | inl known ↦ rw (present, known, ensure_version) v
      | inr unknown ↦ rw (present, unknown, ensure_version) (find_version-kept fh_id path (s, w) v)
    ]
  ]

  schedule_read_ahead-kept :
      (fh_id : ℕ) (path : Bytes) (size mtime end off : ℕ) (w : W) (s : Ram)
      → WellFormed s
      → WellFormed (schedule_read_ahead host fh_id path size mtime end off w s)
  unfolding schedule_read_ahead
  schedule_read_ahead-kept fh_id path size mtime end off w s v =
      let within = schedule_read_ahead-Within host fh_id path size mtime end off w s v.queue in
      let (budget, s') = budget_now host w s in
      let v' : WellFormed s' = budget_now-kept w s v in
      elim (Bool-cases (budget == 0)) [
        | inl none_left ↦ rw none_left v'
        | inr some_left ↦ elim (Option-cases (find fh_id s'.handles)) [
          | inl absent ↦ rw (some_left, absent, schedule_read_ahead) v'
          | inr (f, present) ↦
              rw (some_left, present, schedule_read_ahead)
                (record {
                  blocks = v'.blocks;
                  caches = v'.caches;
                  queue = (rw (some_left, present, schedule_read_ahead) at within).0;
                })
        ]
      ]

  read_version-kept :
      (fh_id : ℕ) (path : Bytes) (size mtime off len : ℕ) (st : Ram × W)
      → WellFormed st.0
      → WellFormed (read_version host fh_id path size mtime off len st).1.0
  unfolding read_version
  read_version-kept fh_id path size mtime off len st v =
      let fetch : ℕ → Ram × W → Fetched × (Ram × W) = block_fetch host path fh_id size mtime in
      let kept =
        read_blocks-keeps fetch (λ (st : Ram × W). WellFormed st.0)
          (block_fetch-kept path fh_id size mtime) off len st v in
      let (reply, (s, w)) = read_blocks fetch off len st in
      elim (Reply-cases reply) [
        | inl (status, e) ↦ rw (e, read_version) kept
        | inr (out, e) ↦
            rw (e, read_version)
              (schedule_read_ahead-kept fh_id path size mtime ((off + length out) % 2 ^ 64) off w s
                kept)
      ]

  pub do_read-kept :
      (payload : Bytes) (st : Ram × W) → WellFormed st.0 → WellFormed (do_read host payload st).1.0
  unfolding do_read forward
  do_read-kept payload (s, w) v = elim (Option-cases (read_args payload).0) [
    | inl broken ↦ rw (broken, do_read) v
    | inr ((fh_id, (off, size)), e) ↦
        let (budget, s') = budget_now host w s in
        let v' : WellFormed s' = budget_now-kept w s v in
        elim (Bool-cases (budget == 0)) [
          | inl off_now ↦ rw (e, do_read, off_now) v'
          | inr on ↦ elim (Option-cases (fh_path fh_id s'.handles)) [
            | inl absent ↦ rw (e, do_read, on, absent) v'
            | inr (path, tracked) ↦
                let kept = ensure_version-kept fh_id path (s', w) v' in
                elim (Option-cases (ensure_version host fh_id path (s', w)).0) [
                  | inl unknown ↦ rw (e, do_read, on, tracked, unknown) kept
                  | inr ((fsize, fmtime), known) ↦
                      rw (e, do_read, on, tracked, known)
                        (read_version-kept fh_id path fsize fmtime off size _ kept)
                ]
          ]
        ]
  ]
