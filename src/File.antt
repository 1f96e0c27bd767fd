-- ===== src/File.antt =====
-- file.rs: file access over ADS.
pub mod Listing
mod Tests
use ads_rs.Prelude.{
  ℕ, zero, suc, ◌+◌, ◌*◌, ◌^◌, ◌≡◌, refl, String, Bool, true, false, Option, none, some, List, [],
  ◌∷◌, ◌++◌, ◌==◌, if◌then◌else◌, length, take, drop, replicate,
}
use ads_rs.Index.{file_open, file_close, file_read, file_write, file_delete, file_browse}
use ads_rs.Wire.{Bytes, ByteOrder}
use ads_rs.Errors.{
  Error, IoError, Result, ok, err, panic, io, ads, reply, overflow, io_sync, other,
  task_info_invalidated, task_info_layout, of_kind, invalid_input, not_found, other_kind,
}
use ads_rs.NetId.{AmsAddr}
use ads_rs.Client.Structs.{until_zero}
use ads_rs.Client.Action.{Client, Action, ignored, pure, lift, ◌>>=◌, ◌>>◌}
use ads_rs.Client.Device.{write_read, write_read_exact}

pub record File : Type 0 where
  pub device : AmsAddr
  pub handle : ℕ

-- An entry of a directory.
pub record FileEntry : Type 0 where
  pub name : Bytes
  pub attributes : ℕ
  pub size : ℕ

-- The text of an error is made by the `thiserror` crate.
module _ (to_string : Error → String) where
  abbrev catch_all : Error → IoError
  catch_all e = record { kind = other_kind; payload = some (to_string e) }

  unfoldable pub map_error : Error → IoError
  map_error (io context e) = e
  map_error (ads context text n) =
      if n == 0x704
      then of_kind invalid_input
      else if n == 0x70C
      then of_kind not_found
      else catch_all (ads context text n)
  map_error task_info_invalidated = catch_all task_info_invalidated
  map_error (task_info_layout reason) = catch_all (task_info_layout reason)
  map_error (reply context text n) = catch_all (reply context text n)
  map_error overflow = catch_all overflow
  map_error (io_sync context text n) = catch_all (io_sync context text n)
  map_error (other text) = catch_all (other text)

module _ ⦃bo : ByteOrder⦄ where
  -- `File::open`
  unfoldable pub open_file : AmsAddr → Bytes → ℕ → Action File
  open_file device filename flags = do
    hdl ← write_read_exact device file_open flags filename (replicate 4 0)
    pure (record { device = device; handle = bo.read_int hdl })

  -- `File::delete`
  unfoldable pub delete_file : AmsAddr → Bytes → ℕ → Action (Unit {0})
  delete_file device filename flags = do
    (_n, _out) ← write_read device file_delete flags filename []
    pure tt

  -- `io::Write::write`, with the error before `map_error`.
  unfoldable pub write_file : File → Bytes → Action ℕ
  write_file f content = do
    (_n, _out) ← write_read f.device file_write f.handle content []
    pure (length content)

  -- `io::Read::read`, with the error before `map_error`.
  unfoldable pub read_file : File → Bytes → Action (ℕ × Bytes)
  read_file f buf = write_read f.device file_read f.handle [] buf

  -- `File::drop`: an error is ignored, but a panic is not.
  unfoldable pub close_file : File → Action (Unit {0})
  unfolding ignored
  close_file f c = ignored (write_read f.device file_close f.handle [] [] c)

  -- An entry, from the 324 bytes that the device sends.
  unfoldable pub entry_of : Bytes → FileEntry
  entry_of buf = record {
    name = until_zero (drop 48 buf);
    attributes = bo.read_int (take 4 (drop 4 buf));
    size = bo.read_int (take 4 (drop 32 buf)) * 2 ^ 32 + bo.read_int (take 4 (drop 36 buf));
  }

  -- What a round of `listdir` makes of its response: the listing goes on with the bytes received,
  -- ends with what was found, or fails.
  abbrev pub after_response :
      Result Bytes
      → List FileEntry
      → (Bytes → List FileEntry → Action (List FileEntry))
      → Action (List FileEntry)
  after_response (ok buf) files next c = next buf (files ++ (entry_of buf ∷ [])) c
  after_response (err (ads context text n)) files next c =
      (if n == 0x70c then ok files else err (ads context text n), c)
  after_response (err task_info_invalidated) files next c = (err task_info_invalidated, c)
  after_response (err (task_info_layout reason)) files next c = (err (task_info_layout reason), c)
  after_response (err (io context e)) files next c = (err (io context e), c)
  after_response (err (reply context text n)) files next c = (err (reply context text n), c)
  after_response (err overflow) files next c = (err overflow, c)
  after_response (err (io_sync context text n)) files next c = (err (io_sync context text n), c)
  after_response (err (other text)) files next c = (err (other text), c)
  after_response panic files next c = (panic, c)

  -- The loop of `listdir`. Each round takes an outcome that the client is to meet, and a request
  -- that meets none fails, so more rounds than there are outcomes are never made.
  unfoldable pub list_from :
      ℕ → AmsAddr → ℕ → Bytes → Bytes → List FileEntry → Action (List FileEntry)
  list_from zero device offset argument buf files c = (panic, c)
  list_from (suc fuel) device offset argument buf files c =
      let (r, c') = write_read_exact device file_browse offset argument buf c in
      after_response r files
        (λ buf' files'. list_from fuel device (bo.read_int (take 4 buf')) [] buf' files') c'

  unfoldable pub listdir : AmsAddr → Bytes → Action (List FileEntry)
  unfolding list_from
  listdir device dirname c =
      list_from (length c.arrivals + 1) device 1 (dirname ++ (b'\\' ∷ b'*' ∷ b'.' ∷ b'*' ∷ []))
        (replicate 324 0) [] c
