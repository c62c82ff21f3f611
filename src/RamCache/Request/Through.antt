-- ===== src/RamCache/Request/Through.antt =====
-- Changes are written through to the host, client/src/fs/ram_cache.cpp.
use folder_buddies.Base.{ℕ, Bool, true, false, ◌==◌, ◌≡◌, ◌≢◌, refl, arith}
use folder_buddies.Base.Bytes.{Bytes}
use folder_buddies.Wire.Op.{Op, op_of}
use folder_buddies.RamCache.State.{Ram, RemoteFs}
use folder_buddies.RamCache.Fetch.{Answer, forward}
use folder_buddies.RamCache.Request.{effect_of, write_through, do_release, request_op, request}

-- The requests that the cache may answer itself.
abbrev pub is_cached : Op → Bool
is_cached Op.getattr = true
is_cached Op.readdir = true
is_cached Op.read_op = true
is_cached _ = false

-- A release forgets its handle whatever the host answers.
abbrev pub is_release : Op → Bool
is_release Op.release = true
is_release _ = false

not-zero : (n : ℕ) → n ≢ 0 → (n == 0) ≡ false
not-zero n h = ground arith

module _ {W : Type 0} (host : RemoteFs W) (op : ℕ) (payload : Bytes) (s : Ram) (w : W) where
  -- The host's answer and state, and the cache as it was if the host refuses.
  abbrev pub Through : Bool → Answer × (Ram × W) → Type 0
  Through keeps r =
      (r.0 ≡ (host.request op payload w).0)
      × (r.1.1 ≡ (host.request op payload w).1)
      × (keeps ≡ false → r.0.0 ≢ 0 → r.1.0 ≡ s)

  write_through-Through :
      (effect : Bytes → Ram → Ram) → Through false (write_through host op payload effect (s, w))
  unfolding write_through forward
  write_through-Through effect =
      (refl, refl, λ e refused. rw (not-zero (host.request op payload w).0.0 refused) refl)

  forward-Through : Through false (forward host op payload (s, w))
  unfolding forward
  forward-Through = (refl, refl, λ e refused. refl)

  request_op-Through :
      (o : Op) → is_cached o ≡ false → Through (is_release o) (request_op host o op payload (s, w))
  unfolding request_op do_release forward
  request_op-Through Op.hello h = forward-Through
  request_op-Through Op.challenge h = forward-Through
  request_op-Through Op.auth h = forward-Through
  request_op-Through Op.auth_ok h = forward-Through
  request_op-Through Op.auth_fail h = forward-Through
  request_op-Through Op.getattr h = cc h
  request_op-Through Op.readdir h = cc h
  request_op-Through Op.open_op h = write_through-Through (effect_of Op.open_op payload)
  request_op-Through Op.read_op h = cc h
  request_op-Through Op.write_op h = write_through-Through (effect_of Op.write_op payload)
  request_op-Through Op.create h = write_through-Through (effect_of Op.create payload)
  request_op-Through Op.mkdir h = write_through-Through (effect_of Op.mkdir payload)
  request_op-Through Op.unlink h = write_through-Through (effect_of Op.unlink payload)
  request_op-Through Op.rmdir h = write_through-Through (effect_of Op.rmdir payload)
  request_op-Through Op.rename h = write_through-Through (effect_of Op.rename payload)
  request_op-Through Op.truncate h = write_through-Through (effect_of Op.truncate payload)
  request_op-Through Op.release h = (refl, refl, λ e. cc e)
  request_op-Through Op.fsync h = forward-Through
  request_op-Through Op.statfs h = forward-Through
  request_op-Through Op.utimens h = write_through-Through (effect_of Op.utimens payload)
  request_op-Through Op.chmod h = write_through-Through (effect_of Op.chmod payload)
  request_op-Through Op.flush h = forward-Through
  request_op-Through Op.access h = forward-Through
  request_op-Through Op.invalidate h = forward-Through
  request_op-Through (Op.unknown n) h = forward-Through

  -- Every request but GETATTR, READDIR and READ is sent to the host once, unchanged, and answered with
  -- the host's own answer; and unless it is a RELEASE the cache stays as it was if the host reports an
  -- error.
  pub request-Through :
      is_cached (op_of op) ≡ false
      → Through (is_release (op_of op)) (request host op payload (s, w))
  unfolding request
  request-Through h = request_op-Through (op_of op) h
