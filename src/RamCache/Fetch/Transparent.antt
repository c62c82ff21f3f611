-- ===== src/RamCache/Fetch/Transparent.antt =====
-- A read through the cache is a read of the host, client/src/fs/ram_cache.cpp: `doRead`.
use folder_buddies.Base.{
  ◌≤◌, ℕ, ◌+◌, ◌^◌, ◌<◌, Option, some, [], ◌≡◌, refl, sym, ◌∙◌, ap, inl, inr, arith, Bool-cases,
  Option-cases, take, drop, ◌==◌, ◌++◌, append_assoc, append-nil,
}
use folder_buddies.Base.Bytes.{Bytes, le_bytes}
use folder_buddies.Wire.{max_io, put_pod}
use folder_buddies.Wire.RoundTrip.{field}
use folder_buddies.Wire.Op.{Op, op_code}
use folder_buddies.RamCache.Handles.{fh_path}
use folder_buddies.RamCache.Read.Whole.{read_blocks-whole_below}
use folder_buddies.RamCache.State.{Ram, RemoteFs, budget_now}
use folder_buddies.RamCache.Fetch.{
  forward, read_payload, read_args, block_fetch, ensure_version, read_version, do_read,
}
use folder_buddies.RamCache.Fetch.Whole.{Ready, Serves, block_fetch-right, budget_now-fields}
use folder_buddies.RamCache.Fetch.Version.{Current, Tells, ensure_version-right}

pub read_args-read_payload :
    (fh_id off len : ℕ)
    → fh_id < 2 ^ 64
    → off < 2 ^ 64
    → len < 2 ^ 32
    → (read_args (read_payload fh_id off len)).0 ≡ some (fh_id, (off, len))
unfolding read_args read_payload put_pod
read_args-read_payload fh_id off len h1 h2 h3 =
    let layout : (le_bytes 8 fh_id ++ le_bytes 8 off) ++ le_bytes 4 len
        ≡ le_bytes 8 fh_id ++ (le_bytes 8 off ++ (le_bytes 4 len ++ [])) =
      append_assoc (le_bytes 8 fh_id) (le_bytes 8 off) (le_bytes 4 len)
      ∙ ap (λ (t : Bytes). le_bytes 8 fh_id ++ (le_bytes 8 off ++ t))
          (sym (append-nil (le_bytes 4 len))) in
    rw layout (
      ap (λ (r : Option (ℕ × (ℕ × ℕ)) × Bytes). r.0)
        (field 8 fh_id _ _ h1 ∙ field 8 off _ _ h2 ∙ field 4 len _ [] h3))

module _ {W : Type 0} (host : RemoteFs W) (contents : Bytes → ℕ → ℕ → Bytes) (fh_id : ℕ)
    (content : Bytes) (Served : W → Type 0)
    (serves : Serves host contents fh_id content Served) where
  forward-right :
      (off len : ℕ) (s : Ram) (w : W)
      → Served w
      → off < 2 ^ 63
      → len ≤ max_io
      → (forward host (op_code Op.read_op) (read_payload fh_id off len) (s, w)).0
        ≡ (0, take len (drop off content))
  unfolding forward
  forward-right off len s w served h1 h2 = (serves off len w served h1 h2).0

  read_version-right :
      (path : Bytes) (size mtime off len : ℕ) (s : Ram) (w : W)
      → contents path size mtime ≡ content
      → Ready host contents fh_id content Served (s, w)
      → off + len < 2 ^ 63
      → (read_version host fh_id path size mtime off len (s, w)).0
        ≡ (0, take len (drop off content))
  unfolding read_version
  read_version-right path size mtime off len s w version ready small =
      let right =
        block_fetch-right host contents fh_id content Served serves path size mtime version in
      let answer =
        read_blocks-whole_below (block_fetch host path fh_id size mtime) content
          (Ready host contents fh_id content Served) (2 ^ 43) right off len (s, w) ready
          (omega arith) (omega arith) in
      rw (answer, read_version) refl

  -- While the host serves one version of a file through an open handle that the cache tracks, and the
  -- cache's blocks, its attributes and its handle say nothing else about that version, a READ through
  -- the cache of at most kMaxIO bytes that end below 2^63 has the answer that the host itself would
  -- give, however much of it comes from memory.
  pub do_read-transparent :
      (path : Bytes) (off len : ℕ) (s : Ram) (w : W)
      → Tells host contents fh_id content Served path
      → fh_path fh_id s.handles ≡ some path
      → Current host contents fh_id content Served path s
      → Ready host contents fh_id content Served (s, w)
      → fh_id < 2 ^ 64
      → off + len < 2 ^ 63
      → len ≤ max_io
      → (do_read host (read_payload fh_id off len) (s, w)).0
        ≡ (host.request (op_code Op.read_op) (read_payload fh_id off len) w).0
  unfolding do_read
  do_read-transparent path off len s w tells tracked current ready h small h2 =
      let args = read_args-read_payload fh_id off len h (omega arith) (omega arith) in
      let (budget, s') = budget_now host w s in
      let (blocks, handles, caches) = budget_now-fields host w s in
      let tracked' : fh_path fh_id s'.handles ≡ some path = rw handles tracked in
      let ready' : Ready host contents fh_id content Served (s', w) =
        (ready.0, rw blocks ready.1, rw handles ready.2) in
      let current' : Current host contents fh_id content Served path s' =
        (rw handles current.0, rw caches current.1) in
      let direct : (host.request (op_code Op.read_op) (read_payload fh_id off len) w).0
          ≡ (0, take len (drop off content)) =
        (serves off len w ready.0 (omega arith) h2).0 in
      let (version, found) =
        ensure_version-right host contents fh_id content Served path s' w tells current' ready' in
      let st : Ram × W = (ensure_version host fh_id path (s', w)).1 in
      elim (Bool-cases (budget == 0)) [
        | inl off_now ↦
            rw (args, do_read, off_now)
              (forward-right off len s' w ready.0 (omega arith) h2 ∙ sym direct)
        | inr on ↦ elim (Option-cases (ensure_version host fh_id path (s', w)).0) [
          | inl unknown ↦
              rw (args, do_read, on, tracked', unknown)
                (forward-right off len st.0 st.1 found.0 (omega arith) h2 ∙ sym direct)
          | inr (v, known) ↦
              rw (args, do_read, on, tracked', known)
                (read_version-right path v.0 v.1 off len st.0 st.1 (version v known) found small
                  ∙ sym direct)
        ]
      ]
