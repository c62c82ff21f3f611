-- ===== src/Wire/Op.antt =====
-- The operation codes of the wire protocol, client/include/net/common.h.
use folder_buddies.Base.{ℕ, ◌==◌, if◌then◌else◌}

pub data Op : Type 0 where
  hello challenge auth auth_ok auth_fail : Op
  getattr readdir open_op read_op write_op create mkdir unlink rmdir rename truncate : Op
  release fsync statfs utimens chmod flush access invalidate : Op
  -- a 16-bit code that the enumeration does not name
  unknown : ℕ → Op

unfoldable pub op_code : Op → ℕ
op_code Op.hello = 1
op_code Op.challenge = 2
op_code Op.auth = 3
op_code Op.auth_ok = 4
op_code Op.auth_fail = 5
op_code Op.getattr = 10
op_code Op.readdir = 11
op_code Op.open_op = 12
op_code Op.read_op = 13
op_code Op.write_op = 14
op_code Op.create = 15
op_code Op.mkdir = 16
op_code Op.unlink = 17
op_code Op.rmdir = 18
op_code Op.rename = 19
op_code Op.truncate = 20
op_code Op.release = 21
op_code Op.fsync = 22
op_code Op.statfs = 23
op_code Op.utimens = 24
op_code Op.chmod = 25
op_code Op.flush = 26
op_code Op.access = 27
op_code Op.invalidate = 28
op_code (Op.unknown n) = n

-- What a `switch` over the code selects.
unfoldable pub op_of : ℕ → Op
op_of n =
    if n == 10
    then Op.getattr
    else if n == 11
    then Op.readdir
    else if n == 12
    then Op.open_op
    else if n == 13
    then Op.read_op
    else if n == 14
    then Op.write_op
    else if n == 15
    then Op.create
    else if n == 16
    then Op.mkdir
    else if n == 17
    then Op.unlink
    else if n == 18
    then Op.rmdir
    else if n == 19
    then Op.rename
    else if n == 20
    then Op.truncate
    else if n == 21
    then Op.release
    else if n == 22
    then Op.fsync
    else if n == 23
    then Op.statfs
    else if n == 24
    then Op.utimens
    else if n == 25
    then Op.chmod
    else if n == 26
    then Op.flush
    else if n == 27
    then Op.access
    else if n == 28
    then Op.invalidate
    else if n == 1
    then Op.hello
    else if n == 2
    then Op.challenge
    else if n == 3
    then Op.auth
    else if n == 4
    then Op.auth_ok
    else if n == 5
    then Op.auth_fail
    else Op.unknown n
