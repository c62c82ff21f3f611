-- ===== src/RamCache/Fetch/Version.antt =====
-- The version that a read goes by is the current one, client/src/fs/ram_cache.cpp: `ensureVersion`.
use folder_buddies.RamCache.Timed.{meta_ttl, meta_lookup, Entry, lookup, meta_store}
use folder_buddies.Base.{
  ℕ, ◌-◌, true, Option, some, [], ◌≡◌, refl, ◌∙◌, inl, inr, arith, Bool-cases, Option-cases, ltb,
  leb, ◌==◌, ◌&&◌,
}
use mathlib.Core.Path.{subst}
use folder_buddies.Base.Bytes.{Bytes}
use folder_buddies.Base.Map.{Map, find, find-insert_self, nat_key, bytes_key}
use folder_buddies.Wire.{WireAttr, get_attr, put_str}
use folder_buddies.Wire.Op.{Op, op_code}
use folder_buddies.RamCache.Handles.{FhInfo, Handles}
use folder_buddies.RamCache.Handles.Close.{closing_at}
use folder_buddies.RamCache.State.{Ram, RemoteFs}
use folder_buddies.RamCache.Fetch.{
  find_version, ensure_version, note_version, use_version, ask_version, forward,
}
use folder_buddies.RamCache.Fetch.Whole.{Ready}

module _ {W : Type 0} (host : RemoteFs W) (contents : Bytes → ℕ → ℕ → Bytes) (fh_id : ℕ)
    (content : Bytes) (Served : W → Type 0) where
  abbrev Ready' : Ram × W → Type 0
  Ready' = Ready host contents fh_id content Served

  -- The version that the cache goes by, whether a handle or the attributes that are cached or that the
  -- host sends say it, is the one with these contents.
  abbrev pub Current : Bytes → Ram → Type 0
  Current path s =
      ((f : FhInfo)
        → find fh_id s.handles ≡ some f
        → f.have_ver ≡ true
        → contents path f.size f.mtime ≡ content)
      × ((e : Entry WireAttr)
          → find path s.caches.meta ≡ some e
          → contents path e.value.size e.value.mtime ≡ content)

  -- While `Served` holds, the attributes that the host sends say that version.
  abbrev pub Tells : Bytes → Type 0
  Tells path =
      (w : W)
      → Served w
      → ((a : WireAttr)
          → (get_attr (host.request (op_code Op.getattr) (put_str path []) w).0.1).0 ≡ some a
          → contents path a.size a.mtime ≡ content)
        × Served (host.request (op_code Op.getattr) (put_str path []) w).1

  abbrev pub RightVersion : Bytes → Option (ℕ × ℕ) × (Ram × W) → Type 0
  RightVersion path r = ((v : ℕ × ℕ) → r.0 ≡ some v → contents path v.0 v.1 ≡ content) × Ready' r.1

  closing_at-note_version :
      (a : WireAttr) (now : ℕ) (m : Handles)
      → closing_at (find fh_id (note_version host fh_id a now m)) ≡ closing_at (find fh_id m)
  unfolding note_version
  closing_at-note_version a now m = elim (Option-cases (find fh_id m)) [
    | inl absent ↦ rw (absent, note_version, absent) refl
    | inr (f, present) ↦
        rw
          (
            present,
            note_version,
            find-insert_self fh_id
                (record f { have_ver = true; ver_at = now; size = a.size; mtime = a.mtime }) m,
          )
          refl
  ]

  use_version-right :
      (path : Bytes) (a : WireAttr) (s : Ram) (w : W)
      → contents path a.size a.mtime ≡ content
      → Ready' (s, w)
      → RightVersion path (use_version host fh_id a (s, w))
  unfolding use_version
  use_version-right path a s w h ready = (
    λ v e. subst (λ (v : ℕ × ℕ). contents path v.0 v.1 ≡ content) (cc e) h,
    (ready.0, ready.1, closing_at-note_version a (host.now w) s.handles ∙ ready.2),
  )

  ask_version-right :
      (path : Bytes) (s : Ram) (w : W)
      → Tells path
      → Ready' (s, w)
      → RightVersion path (ask_version host fh_id path (s, w))
  unfolding ask_version forward
  ask_version-right path s w tells ready =
      let (told, served) = tells w ready.0 in
      let ((status, resp), w') = host.request (op_code Op.getattr) (put_str path []) w in
      elim (Bool-cases (status == 0)) [
        | inr refused ↦ rw refused (λ v e. cc e, (served, ready.1, ready.2))
        | inl fine ↦ elim (Option-cases (get_attr resp).0) [
          | inl broken ↦ rw (fine, broken, ask_version) (λ v e. cc e, (served, ready.1, ready.2))
          | inr (a, got) ↦
              rw (fine, got, ask_version)
                (use_version-right path a
                  (record s { caches = meta_store (host.now w') path a s.caches }) w' (told a got)
                  (served, ready.1, ready.2))
        ]
      ]

  lookup_found :
      {V : Type 0} (ttl now : ℕ) (m : Map Bytes (Entry V)) (path : Bytes) (v : V)
      → (lookup ttl now path m).0 ≡ some v
      → (e : Entry V) × (find path m ≡ some e) × (e.value ≡ v)
  unfolding lookup
  lookup_found ttl now m path v h = elim (Option-cases (find path m)) [
    | inl absent ↦ cc (rw (absent, lookup) at h)
    | inr (e, present) ↦ elim (Bool-cases (ltb ttl (now - e.at))) [
      | inl old ↦ cc (rw (present, old, lookup) at h)
      | inr young ↦ (e, present, cc (rw (present, young, lookup) at h))
    ]
  ]

  find_version-right :
      (path : Bytes) (s : Ram) (w : W)
      → Tells path
      → Current path s
      → Ready' (s, w)
      → RightVersion path (find_version host fh_id path (s, w))
  unfolding find_version meta_lookup
  find_version-right path s w tells current ready =
      let (got, meta) = lookup meta_ttl (host.now w) path s.caches.meta in
      let s' : Ram = record s { caches = record s.caches { meta = meta } } in
      elim (Option-cases got) [
        | inl miss ↦ rw (miss, find_version) (ask_version-right path s' w tells ready)
        | inr (a, hit) ↦
            let (e, found, same) = lookup_found meta_ttl (host.now w) s.caches.meta path a hit in
            rw (hit, find_version)
              (use_version-right path a s' w
                (subst (λ (a : WireAttr). contents path a.size a.mtime ≡ content) same
                  (current.1 e found))
                ready)
      ]

  pub ensure_version-right :
      (path : Bytes) (s : Ram) (w : W)
      → Tells path
      → Current path s
      → Ready' (s, w)
      → RightVersion path (ensure_version host fh_id path (s, w))
  unfolding ensure_version
  ensure_version-right path s w tells current ready =
      let ask = find_version-right path s w tells current ready in
      elim (Option-cases (find fh_id s.handles)) [
        | inl absent ↦ rw (absent, ensure_version) ask
        | inr (f, present) ↦
            elim (Bool-cases (f.have_ver && leb (host.now w - f.ver_at) meta_ttl)) [
              | inl known ↦
                  rw (present, known, ensure_version)
                    (
                      λ v e.
                          subst (λ (v : ℕ × ℕ). contents path v.0 v.1 ≡ content) (cc e)
                            (current.0 f present (ground (arith, known))),
                      ready,
                    )
              | inr unknown ↦ rw (present, unknown, ensure_version) ask
            ]
      ]
