-- ===== src/RamCache/Request/Keeps/Requests.antt =====
-- Every request keeps the cache well formed, client/src/fs/ram_cache.cpp.
use folder_buddies.Base.{ℕ, ◌==◌, inl, inr, Bool-cases, Option-cases}
use folder_buddies.Base.Bytes.{Bytes}
use folder_buddies.Wire.{get_str, get_attr}
use folder_buddies.Wire.Op.{Op, op_of, op_code}
use folder_buddies.RamCache.Timed.{meta_lookup, neg_lookup, dir_lookup}
use folder_buddies.RamCache.State.{Ram, RemoteFs}
use folder_buddies.RamCache.Fetch.{Answer, forward}
use folder_buddies.RamCache.Request.{
  enoent, note_attr, do_getattr, ask_listing, do_readdir, write_through, effect_of, do_release,
  request_op, request,
}
use folder_buddies.RamCache.Request.Keeps.{WellFormed}
use folder_buddies.RamCache.Request.Keeps.Effects.{
  meta_store-Bounded, meta_lookup-Bounded, neg_lookup-Bounded, neg_store-Bounded,
  dir_lookup-Bounded, with_caches, store_listing-Bounded, effect_of-kept,
}
use folder_buddies.RamCache.Request.Keeps.Reads.{do_read-kept}

module _ {W : Type 0} (host : RemoteFs W) where
  forward-kept :
      (op : ℕ) (payload : Bytes) (st : Ram × W)
      → WellFormed st.0
      → WellFormed (forward host op payload st).1.0
  unfolding forward
  forward-kept op payload (s, w) v = v

  note_attr-kept :
      (path : Bytes) (answer : Answer) (st : Ram × W)
      → WellFormed st.0
      → WellFormed (note_attr host path answer st).0
  unfolding note_attr
  note_attr-kept path (status, resp) (s, w) v = elim (Bool-cases (status == 0)) [
    | inl fine ↦ elim (Option-cases (get_attr resp).0) [
      | inl broken ↦ rw (fine, broken, note_attr) v
      | inr (a, got) ↦
          rw (fine, got, note_attr)
            (with_caches s _ v (meta_store-Bounded path s.caches v.caches (host.now w) a))
    ]
    | inr refused ↦ elim (Bool-cases (status == enoent)) [
      | inl missing ↦
          rw (refused, missing)
            (with_caches s _ v (neg_store-Bounded path s.caches v.caches (host.now w)))
      | inr other ↦ rw (refused, other) v
    ]
  ]

  do_getattr-kept :
      (payload : Bytes) (st : Ram × W)
      → WellFormed st.0
      → WellFormed (do_getattr host payload st).1.0
  unfolding do_getattr forward
  do_getattr-kept payload (s, w) v = elim (Option-cases (get_str payload).0) [
    | inl broken ↦ rw (broken, do_getattr) v
    | inr (path, e) ↦
        let (got, caches) = meta_lookup (host.now w) path s.caches in
        let b = meta_lookup-Bounded path s.caches v.caches (host.now w) in
        let (missing, caches') = neg_lookup (host.now w) path caches in
        let b' = neg_lookup-Bounded path caches b (host.now w) in
        let s' : Ram = record s { caches = caches' } in
        let (answer, w') = host.request (op_code Op.getattr) payload w in
        elim (Option-cases got) [
          | inr (a, hit) ↦ rw (e, do_getattr, hit) (with_caches s caches v b)
          | inl miss ↦ elim (Option-cases missing) [
            | inr (u, known) ↦ rw (e, do_getattr, miss, known) (with_caches s caches' v b')
            | inl unknown ↦
                rw (e, do_getattr, miss, unknown)
                  (note_attr-kept path answer (s', w') (with_caches s caches' v b'))
          ]
        ]
  ]

  ask_listing-kept :
      (path payload : Bytes) (st : Ram × W)
      → WellFormed st.0
      → WellFormed (ask_listing host path payload st).1.0
  unfolding ask_listing forward
  ask_listing-kept path payload (s, w) v =
      let ((status, resp), w') = host.request (op_code Op.readdir) payload w in
      elim (Bool-cases (status == 0)) [
        | inl fine ↦
            rw fine
              (with_caches s _ v (store_listing-Bounded (host.now w') path resp s.caches v.caches))
        | inr refused ↦ rw refused v
      ]

  do_readdir-kept :
      (payload : Bytes) (st : Ram × W)
      → WellFormed st.0
      → WellFormed (do_readdir host payload st).1.0
  unfolding do_readdir forward
  do_readdir-kept payload (s, w) v = elim (Option-cases (get_str payload).0) [
    | inl broken ↦ rw (broken, do_readdir) v
    | inr (path, e) ↦
        let (got, caches) = dir_lookup (host.now w) path s.caches in
        let b = dir_lookup-Bounded path s.caches v.caches (host.now w) in
        let v' : WellFormed (record s { caches = caches }) = with_caches s caches v b in
        elim (Option-cases got) [
          | inr (resp, hit) ↦ rw (e, do_readdir, hit) v'
          | inl miss ↦
              rw (e, do_readdir, miss)
                (ask_listing-kept path payload (record s { caches = caches }, w) v')
        ]
  ]

  write_through-kept :
      (o : Op) (op : ℕ) (payload : Bytes) (st : Ram × W)
      → WellFormed st.0
      → WellFormed (write_through host op payload (effect_of o payload) st).1.0
  unfolding write_through forward
  write_through-kept o op payload (s, w) v =
      let ((status, resp), w') = host.request op payload w in
      elim (Bool-cases (status == 0)) [
        | inl fine ↦ rw fine (effect_of-kept o payload resp s v)
        | inr refused ↦ rw refused v
      ]

  do_release-kept :
      (op : ℕ) (payload : Bytes) (st : Ram × W)
      → WellFormed st.0
      → WellFormed (do_release host op payload st).1.0
  unfolding do_release forward
  do_release-kept op payload (s, w) v = record {
    blocks = v.blocks;
    caches = v.caches;
    queue = v.queue;
  }

  request_op-kept :
      (o : Op) (op : ℕ) (payload : Bytes) (st : Ram × W)
      → WellFormed st.0
      → WellFormed (request_op host o op payload st).1.0
  unfolding request_op
  request_op-kept Op.hello op payload = forward-kept op payload
  request_op-kept Op.challenge op payload = forward-kept op payload
  request_op-kept Op.auth op payload = forward-kept op payload
  request_op-kept Op.auth_ok op payload = forward-kept op payload
  request_op-kept Op.auth_fail op payload = forward-kept op payload
  request_op-kept Op.getattr op payload = do_getattr-kept payload
  request_op-kept Op.readdir op payload = do_readdir-kept payload
  request_op-kept Op.open_op op payload = write_through-kept Op.open_op op payload
  request_op-kept Op.read_op op payload = do_read-kept host payload
  request_op-kept Op.write_op op payload = write_through-kept Op.write_op op payload
  request_op-kept Op.create op payload = write_through-kept Op.create op payload
  request_op-kept Op.mkdir op payload = write_through-kept Op.mkdir op payload
  request_op-kept Op.unlink op payload = write_through-kept Op.unlink op payload
  request_op-kept Op.rmdir op payload = write_through-kept Op.rmdir op payload
  request_op-kept Op.rename op payload = write_through-kept Op.rename op payload
  request_op-kept Op.truncate op payload = write_through-kept Op.truncate op payload
  request_op-kept Op.release op payload = do_release-kept op payload
  request_op-kept Op.fsync op payload = forward-kept op payload
  request_op-kept Op.statfs op payload = forward-kept op payload
  request_op-kept Op.utimens op payload = write_through-kept Op.utimens op payload
  request_op-kept Op.chmod op payload = write_through-kept Op.chmod op payload
  request_op-kept Op.flush op payload = forward-kept op payload
  request_op-kept Op.access op payload = forward-kept op payload
  request_op-kept Op.invalidate op payload = forward-kept op payload
  request_op-kept (Op.unknown n) op payload = forward-kept op payload

  -- Every request, whatever the host answers, keeps the cache well formed: the byte count and the order
  -- of use fit the blocks, no cache is over its number of entries, and the queue of the pool is not over
  -- 512 jobs.
  pub request-kept :
      (op : ℕ) (payload : Bytes) (s : Ram) (w : W)
      → WellFormed s
      → WellFormed (request host op payload (s, w)).1.0
  unfolding request
  request-kept op payload s w v = request_op-kept (op_of op) op payload (s, w) v
