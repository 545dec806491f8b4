-- ===== src/AtomicFile.antt =====
-- internal/atomicfile/write.go: the durable replacement of one small file. The state is the file
-- and the temporary file beside it; whether a call of the operating system fails is a parameter.
pub mod Law
use unifi_stubd.Prelude.{
  ℕ, Bool, true, false, Option, none, some, [], take, if◌then◌else◌, Result, ok, err,
}
use unifi_stubd.Prelude.Text.{Bytes, is_empty}

-- The calls of `WriteFile` and `syncDirectory`, in their order.
pub data Call : Type 0 where
  mkdir_all : Call
  create_temp : Call
  chmod : Call
  write : Call
  sync : Call
  close : Call
  rename : Call
  open_dir : Call
  sync_dir : Call
  remove : Call

-- Which calls fail in one run, and how much of the data a write that fails has written.
pub record Faults : Type 0 where
  pub fails : Call → Bool
  pub written : ℕ

-- The file at the path and the temporary file, with their content.
pub record Disk : Type 0 where
  pub target : Option Bytes
  pub temp : Option Bytes

pub data WriteError : Type 0 where
  path_required : WriteError
  failed : Call → WriteError

-- The deferred `os.Remove(tempPath)`, whose error is ignored.
unfoldable pub cleanup : Faults → Disk → Disk
cleanup f d = record { target = d.target; temp = if f.fails Call.remove then d.temp else none }

-- `syncDirectory`, after the rename. An error of the sync is one that is not EINVAL or ENOTSUP.
unfoldable pub sync_directory : Faults → Result WriteError (Unit {0})
sync_directory f =
    if f.fails Call.open_dir
    then err (WriteError.failed Call.open_dir)
    else if f.fails Call.sync_dir
    then err (WriteError.failed Call.sync_dir)
    else ok tt

-- From `os.Rename` on.
unfoldable pub replace : Faults → Bytes → Disk → Disk × Result WriteError (Unit {0})
unfolding cleanup sync_directory
replace f content d =
    if f.fails Call.rename
    then (cleanup f d, err (WriteError.failed Call.rename))
    else (cleanup f (record { target = some content; temp = none }), sync_directory f)

-- With the temporary file created, up to the rename.
unfoldable pub fill_temp : Faults → Bytes → Disk → Disk × Result WriteError (Unit {0})
unfolding cleanup
fill_temp f content d =
    let partial : Disk = record { target = d.target; temp = some (take f.written content) } in
    let full : Disk = record { target = d.target; temp = some content } in
    if f.fails Call.chmod
    then (cleanup f d, err (WriteError.failed Call.chmod))
    else if f.fails Call.write
    then (cleanup f partial, err (WriteError.failed Call.write))
    else if f.fails Call.sync
    then (cleanup f full, err (WriteError.failed Call.sync))
    else if f.fails Call.close
    then (cleanup f full, err (WriteError.failed Call.close))
    else replace f content full

-- `WriteFile`.
unfoldable pub write_file : Faults → Bytes → Bytes → Disk → Disk × Result WriteError (Unit {0})
write_file f path content d =
    if is_empty path
    then (d, err WriteError.path_required)
    else if f.fails Call.mkdir_all
    then (d, err (WriteError.failed Call.mkdir_all))
    else if f.fails Call.create_temp
    then (d, err (WriteError.failed Call.create_temp))
    else fill_temp f content (record { target = d.target; temp = some [] })
