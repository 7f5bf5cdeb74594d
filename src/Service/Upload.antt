-- ===== src/Service/Upload.antt =====
-- internal/service/upload_service.go: the checks of an uploaded image, and where it is stored. The parts of
-- the standard library are parameters: the multipart file, `http.DetectContentType`, the random bytes of a
-- name, and the month that `time.Now().Format("200601")` prints.
pub mod Stored
use pluto_feed.Prelude.{
  ℕ, ◌*◌, ◌^◌, Option, none, some, Bytes, codes, bytes_eq, if◌then◌else◌, ◌++◌, List, [], ◌∷◌, ◌+◌,
  ◌/◌, ◌%◌, ltb,
}
use pluto_feed.Prelude.Int.{ℤ, pos, ltb_ℤ}
use pluto_feed.Apierror.{Error, new, other, Result, ok, err, Act, ◌>>=◌, ◌>>◌, pure, raise}
use pluto_feed.Disk.{Files, Disk}

abbrev pub max_upload_size : ℕ
max_upload_size = 5 * 2 ^ 20

abbrev pub file_too_large : Error
file_too_large = new 413 41300 "文件超过 5MB 限制"

abbrev pub wrong_type : Error
wrong_type = new 415 41500 "仅支持 jpg/png 图片"

-- The extension of an allowed type.
unfoldable pub allowed_image_types : Bytes → Option Bytes
allowed_image_types detected =
    if bytes_eq detected (codes "image/jpeg")
    then some (codes ".jpg")
    else if bytes_eq detected (codes "image/png")
    then some (codes ".png")
    else none

-- An open multipart file: what the first `Read` of at most 512 bytes gives, and what `io.Copy` then reads; the
-- copy may stop early.
pub record Source : Type 0 where
  pub first_read : Result Bytes
  pub rest : Bytes
  pub broken_after : Option Bytes

pub record FileHeader : Type 0 where
  pub size : ℤ
  pub open_file : Result Source

-- `hex.EncodeToString`.
abbrev hex_digit : ℕ → ℕ
hex_digit n = if ltb n 10 then n + 48 else n + 87

unfoldable pub hex : Bytes → Bytes
hex [] = []
hex (b ∷ bs) = hex_digit (b / 16) ∷ hex_digit (b % 16) ∷ hex bs

-- `filepath.Join` of clean parts.
abbrev pub join : Bytes → Bytes → Bytes
join dir name = dir ++ b'/' ∷ name

-- What one upload takes from outside. The month is read twice.
pub record Chance : Type 0 where
  pub random : Result Bytes
  pub month : Bytes
  pub month_later : Bytes

abbrev pub copy_failed : Error
copy_failed = other 60

module _ (disk : Disk) (detect_content_type : Bytes → Bytes) (root_dir : Bytes) where
  -- `io.Copy`: all that is left, or some of it and an error.
  abbrev pub copy_part : Bytes → Source → Option Bytes → Act Files (Unit {0})
  copy_part path src none = disk.write path src.rest
  copy_part path src (some part) = disk.write path part >> raise copy_failed

  unfoldable pub copy : Bytes → Source → Act Files (Unit {0})
  copy path src = copy_part path src src.broken_after

  abbrev pub stored_name : Bytes → Bytes → Bytes
  stored_name random ext = hex random ++ ext

  abbrev pub stored_path : Bytes → Bytes → Bytes
  stored_path month name = join (join root_dir month) name

  abbrev pub url_of : Bytes → Bytes → Bytes
  url_of month name = codes "/uploads/" ++ (month ++ b'/' ∷ name)

  abbrev pub store_file : Chance → Source → Bytes → Bytes → Act Files Bytes
  store_file chance src head name = do
    disk.mkdir_all (join root_dir chance.month)
    disk.create (stored_path chance.month name)
    disk.write (stored_path chance.month name) head
    copy (stored_path chance.month name) src
    pure (url_of chance.month_later name)

  abbrev pub name_file : Chance → Source → Bytes → Bytes → Result Bytes → Act Files Bytes
  name_file chance src head ext (err e) = raise e
  name_file chance src head ext (ok random) = store_file chance src head (stored_name random ext)

  abbrev pub store_if : Chance → Source → Bytes → Option Bytes → Act Files Bytes
  store_if chance src head none = raise wrong_type
  store_if chance src head (some ext) = name_file chance src head ext chance.random

  abbrev pub sniff : Chance → Source → Result Bytes → Act Files Bytes
  sniff chance src (err e) = raise e
  sniff chance src (ok head) =
      store_if chance src head (allowed_image_types (detect_content_type head))

  abbrev pub opened : Chance → Result Source → Act Files Bytes
  opened chance (err e) = raise e
  opened chance (ok src) = sniff chance src src.first_read

  unfoldable pub save : Chance → FileHeader → Act Files Bytes
  save chance fh =
      if ltb_ℤ (pos max_upload_size) fh.size
      then raise file_too_large
      else opened chance fh.open_file
