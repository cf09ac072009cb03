-- ===== src/Devices/Tests.antt =====
-- The devices at concrete states, on a host whose one stream is a list of bytes.
use v6502c.Base.{ℕ, ◌≡◌, refl, arith, Bool, true, false}
use v6502c.Base.{Option, none, some, List, [], ◌∷◌}
use v6502c.Devices.Host.{Host}
use v6502c.Devices.Via.{Via, reset_via, tick_t1, tick_t2, write_reg, t1ch}
use v6502c.Devices.Via.Timers.{timer_1, timer_2, count_down, via_ticks, tick_refines, timer_1_runs}
use v6502c.Devices.Acia.{Acia}
use v6502c.Devices.Acia.Serial.{drain, drain_lem}
use v6502c.Devices.FileIo.{FileIo, fileio_write_reg, opened, terminated}
use v6502c.Devices.FileIo.Files.{IsCoherent, fileio_write_reg-IsCoherent}
use v6502c.Devices.FileIo.Name.{spell, open_r-spell}
use v6502c.Devices.FileIo.Loading.{load_all, load_all_lem}

abbrev take_byte : List ℕ → Option ℕ × List ℕ
take_byte [] = (none, [])
take_byte (x ∷ xs) = (some x, xs)

abbrev has_byte : List ℕ → Bool
has_byte [] = false
has_byte (x ∷ xs) = true

abbrev list_host : Host (List ℕ)
list_host = record {
  select_ready = λ f h. has_byte h;
  read_byte = λ f h. take_byte h;
  put_char = λ f v h. h;
  open_read = λ name h. (some 3, name);
  open_write = λ name h. (none, h);
  get_char = λ f h. take_byte h;
  close_file = λ f h. h;
}

abbrev loaded_via : Via
loaded_via = record reset_via { t1_latch = 0x1234; t2_latch_low = 0x56; acr = 0x40; ier = 0x40 }

tick_refines_example :
    let d' = tick_t2 (tick_t1 loaded_via) in
    (timer_1 d' ≡ count_down (timer_1 loaded_via)) × (timer_2 d' ≡ count_down (timer_2 loaded_via))
tick_refines_example = tick_refines loaded_via

timer_1_runs_example :
    let started = write_reg t1ch loaded_via 0x02 in
    (timer_1 (via_ticks 0x10 started)
      ≡ record { count = 0x224; latch = 0x234; running = true; continuous = true; flag = false })
    × (timer_1 (via_ticks 0x235 started)
        ≡ record { count = 0x234; latch = 0x234; running = true; continuous = true; flag = true })
unfolding reset_via
timer_1_runs_example = timer_1_runs loaded_via 0x02 0x10 (omega arith) (omega arith)

abbrev idle_acia : Acia
idle_acia = record {
  input = some 0;
  output = none;
  command = 0;
  control = 0;
  rx_data = 0;
  rx_full = false;
}

drain_lem_example : drain list_host 0 3 idle_acia (0x48 ∷ 0x69 ∷ []) ≡ 0x48 ∷ 0x69 ∷ []
drain_lem_example =
    drain_lem list_host 0 3 idle_acia (0x48 ∷ 0x69 ∷ []) (0x48 ∷ 0x69 ∷ []) refl refl
      (refl, omega arith, (0x69 ∷ [], refl, (refl, omega arith, ([], refl, refl)))) (omega arith)

abbrev open_fileio : FileIo
open_fileio = record {
  file = some 3;
  status = 0x81;
  data_byte = 0;
  name_index = 9;
  filename = λ i. 0x41;
}

fileio_write_reg-IsCoherent_example : IsCoherent (fileio_write_reg list_host open_fileio 0 2 []).0
fileio_write_reg-IsCoherent_example = fileio_write_reg-IsCoherent list_host open_fileio 0 2 [] refl

open_r-spell_example :
    let s = spell list_host (0x50 ∷ 0x51 ∷ []) (fileio_write_reg list_host open_fileio 2 0 []) in
    fileio_write_reg list_host s.0 0 1 s.1
    ≡ opened list_host (terminated s.0) (some 3, 0x50 ∷ 0x51 ∷ [])
open_r-spell_example =
    open_r-spell list_host (0x50 ∷ 0x51 ∷ []) open_fileio []
      (omega arith, omega arith, (omega arith, omega arith, tt)) (omega arith)

load_all_lem_example : load_all list_host 3 3 open_fileio (0x10 ∷ 0x20 ∷ []) ≡ 0x10 ∷ 0x20 ∷ []
load_all_lem_example =
    load_all_lem list_host 3 3 open_fileio (0x10 ∷ 0x20 ∷ []) (0x10 ∷ 0x20 ∷ []) refl refl
      (omega arith, (0x20 ∷ [], refl, (omega arith, ([], refl, refl)))) (omega arith)
