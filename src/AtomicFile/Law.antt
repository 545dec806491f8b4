-- ===== src/AtomicFile/Law.antt =====
-- What `WriteFile` leaves on the disk, whichever call fails.
use unifi_stubd.Prelude.{◌≡◌, ◌⊎◌, arith, false, none, some, [], Result, ok, err}
use unifi_stubd.Prelude.Text.{Bytes, is_empty}
use unifi_stubd.AtomicFile.{
  Call, Faults, Disk, WriteError, cleanup, sync_directory, replace, fill_temp, write_file,
}

-- The file as it was, and an error of a call before the replacement, or the whole new content, with
-- an error of the last two calls only.
abbrev pub Outcome : Bytes → Disk → Disk × Result WriteError (Unit {0}) → Type 0
Outcome content d (after, result) =
    ((after.target ≡ d.target) × ((e : WriteError) × (result ≡ err e)))
    ⊎ ((after.target ≡ some content)
        × ((result ≡ ok tt)
            ⊎ ((result ≡ err (WriteError.failed Call.open_dir))
                ⊎ (result ≡ err (WriteError.failed Call.sync_dir)))))

replace-Outcome :
    (f : Faults) (content : Bytes) (d : Disk) → Outcome content d (replace f content d)
unfolding replace sync_directory cleanup
replace-Outcome f content d = ground arith

fill_temp-Outcome :
    (f : Faults) (content : Bytes) (d : Disk) → Outcome content d (fill_temp f content d)
unfolding fill_temp cleanup
fill_temp-Outcome f content d =
    ground (arith, replace-Outcome f content (record { target = d.target; temp = some content }))

-- Whatever calls fail, `WriteFile` either fails before the replacement and leaves the file as it was,
-- or the file has the whole new content; the second case is a success, unless only the directory
-- could not be opened or synced.
pub write_file-Outcome :
    (f : Faults) (path content : Bytes) (d : Disk) → Outcome content d (write_file f path content d)
unfolding write_file
write_file-Outcome f path content d =
    ground (arith, fill_temp-Outcome f content (record { target = d.target; temp = some [] }))

pub write_file_clean :
    (f : Faults) (path content : Bytes) (d : Disk)
    → ((c : Call) → f.fails c ≡ false)
    → is_empty path ≡ false
    → write_file f path content d ≡ (record { target = some content; temp = none }, ok tt)
unfolding write_file fill_temp replace sync_directory cleanup
write_file_clean f path content d h p = rw (
  p,
  h Call.mkdir_all,
  h Call.create_temp,
  h Call.chmod,
  h Call.write,
  h Call.sync,
  h Call.close,
  h Call.rename,
  h Call.remove,
  h Call.open_dir,
  h Call.sync_dir,
)
