-- ===== src/Devices/FileIo.antt =====
-- `fileio_t` of src/devices.h and the file device of src/devices.c, for LOAD and SAVE in BASIC.
-- `none` is a NULL device. The name buffer is a function on its 256 indices.
pub mod Files
pub mod Loading
pub mod Name
use v6502c.Base.{ℕ, zero, suc, ◌+◌, bit_or, Bool, true, false, Option, none, some, List, [], ◌∷◌}
use v6502c.Base.{◌==◌, if◌then◌else◌, u8}
use v6502c.Devices.Host.{Host}

pub record FileIo : Type 0 where
  pub file : Option ℕ
  pub status : ℕ
  pub data_byte : ℕ
  pub name_index : ℕ
  pub filename : ℕ → ℕ

abbrev pub fileio_status_open : ℕ
fileio_status_open = 0x01

abbrev pub fileio_status_eof : ℕ
fileio_status_eof = 0x02

abbrev pub fileio_status_err : ℕ
fileio_status_err = 0x04

abbrev pub fileio_status_ready : ℕ
fileio_status_ready = 0x80

abbrev pub fileio_name_maxlen : ℕ
fileio_name_maxlen = 256

abbrev pub put_at : (ℕ → ℕ) → ℕ → ℕ → ℕ → ℕ
put_at f i v j = if j == i then v else f j

-- The C string at index `i`: up to the first zero, or up to the end of what is left.
unfoldable pub c_string : ℕ → (ℕ → ℕ) → ℕ → List ℕ
c_string zero f i = []
c_string (suc left) f i = if f i == 0 then [] else f i ∷ c_string left f (i + 1)

-- `room` says whether `malloc` returns a device; `file` is NULL before the reset.
unfoldable pub fileio_create : Bool → Option FileIo
fileio_create room =
    if room
    then some (record {
      file = none;
      status = fileio_status_ready;
      data_byte = 0;
      name_index = 0;
      filename = λ i. 0;
    })
    else none

unfoldable pub fileio_read : Option FileIo → ℕ → ℕ
fileio_read none reg = 0xFF
fileio_read (some dev) reg =
    if reg == 0
    then dev.status
    else if reg == 1
    then dev.data_byte
    else if reg == 2
    then dev.name_index
    else if reg == 3
    then dev.filename dev.name_index
    else 0xFF

-- The name is cut at the index where the next character would go.
abbrev pub terminated : FileIo → FileIo
terminated dev = record dev { filename = put_at dev.filename dev.name_index 0 }

abbrev pub name_of : FileIo → List ℕ
name_of dev = c_string fileio_name_maxlen (terminated dev).filename 0

-- A character goes to the buffer, and the index, a byte, goes on.
unfoldable pub put_name_char : FileIo → ℕ → FileIo
put_name_char dev value = record dev {
  filename = put_at dev.filename dev.name_index value;
  name_index = u8 (dev.name_index + 1);
}

module _ {H : Type 0} (os : Host H) where
  open os use {put_char, open_read, open_write, get_char, close_file}

  -- `if (dev->file != NULL) fclose(dev->file);`
  unfoldable pub close_any : Option ℕ → H → H
  close_any none h = h
  close_any (some f) h = close_file f h

  unfoldable pub reset_fileio : FileIo → H → FileIo × H
  reset_fileio dev h = (
    record {
      file = none;
      status = fileio_status_ready;
      data_byte = 0;
      name_index = 0;
      filename = λ i. 0;
    },
    close_any dev.file h,
  )

  unfoldable pub fileio_reset : Option FileIo → H → Option FileIo × H
  fileio_reset none h = (none, h)
  fileio_reset (some dev) h = let r = reset_fileio dev h in (some r.0, r.1)

  -- `none` is the device that is freed.
  unfoldable pub fileio_destroy : Option FileIo → H → Option FileIo × H
  fileio_destroy none h = (none, h)
  fileio_destroy (some dev) h = (none, close_any dev.file h)

  -- What `fopen` returned is kept, and the status says whether it is a file.
  unfoldable pub opened : FileIo → Option ℕ × H → FileIo × H
  opened dev (none, h) =
      (record dev { file = none; status = bit_or fileio_status_ready fileio_status_err }, h)
  opened dev (some f, h) =
      (record dev { file = some f; status = bit_or fileio_status_ready fileio_status_open }, h)

  unfoldable pub open_r : FileIo → H → FileIo × H
  open_r dev h = opened (terminated dev) (open_read (name_of dev) (close_any dev.file h))

  unfoldable pub open_w : FileIo → H → FileIo × H
  open_w dev h = opened (terminated dev) (open_write (name_of dev) (close_any dev.file h))

  -- What `fgetc` returned.
  unfoldable pub got : FileIo → Option ℕ × H → FileIo × H
  got dev (none, h) =
      (record dev { status = u8 (bit_or dev.status fileio_status_eof); data_byte = 0 }, h)
  got dev (some c, h) = (record dev { data_byte = u8 c }, h)

  unfoldable pub read_next : Option ℕ → FileIo → H → FileIo × H
  read_next none dev h = (record dev { status = u8 (bit_or dev.status fileio_status_err) }, h)
  read_next (some f) dev h = got dev (get_char f h)

  unfoldable pub write_next : Option ℕ → FileIo → H → FileIo × H
  write_next none dev h = (record dev { status = u8 (bit_or dev.status fileio_status_err) }, h)
  write_next (some f) dev h = (dev, put_char f dev.data_byte h)

  unfoldable pub close : FileIo → H → FileIo × H
  close dev h = (record dev { file = none; status = fileio_status_ready }, close_any dev.file h)

  -- `switch (value)` of the command register; any other value does nothing.
  unfoldable pub fileio_command : ℕ → FileIo → H → FileIo × H
  fileio_command value dev h =
      if value == 0
      then reset_fileio dev h
      else if value == 1
      then open_r dev h
      else if value == 2
      then open_w dev h
      else if value == 3
      then read_next dev.file dev h
      else if value == 4
      then write_next dev.file dev h
      else if value == 5
      then close dev h
      else (dev, h)

  unfoldable pub fileio_write_reg : FileIo → ℕ → ℕ → H → FileIo × H
  fileio_write_reg dev reg value h =
      if reg == 0
      then fileio_command value dev h
      else if reg == 1
      then (record dev { data_byte = value }, h)
      else if reg == 2
      then (record dev { name_index = value }, h)
      else if reg == 3
      then (put_name_char dev value, h)
      else (dev, h)

  unfoldable pub fileio_write : Option FileIo → ℕ → ℕ → H → Option FileIo × H
  fileio_write none reg value h = (none, h)
  fileio_write (some dev) reg value h =
      let r = fileio_write_reg dev reg (u8 value) h in (some r.0, r.1)
