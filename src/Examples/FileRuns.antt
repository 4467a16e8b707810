-- ===== src/Examples/FileRuns.antt =====
-- env.cc over env_boost.cc, in a world with one file, whatever its name.
use my_leveldb.Common.{
  ℕ, ◌≡◌, ◌⊎◌, refl, ap, arith, Bool, true, false, ltb, lt→ltb, Option, none, some, [], ◌∷◌, ◌++◌,
  Bytes, length, take, drop, ◌-◌, ◌/◌, ◌↔◌, ◌<◌, ◌+◌, if◌then◌else◌,
}
use my_leveldb.Env.Clock.{now_micros_same_day}
use my_leveldb.Env.Posix.{now_micros, micros_per_day}
use my_leveldb.Status.{Status, ok_status, is_ok}
use my_leveldb.Env.{read_file_to_string, write_string_to_file}
use my_leveldb.Env.Posix.{posix_env}
use my_leveldb.Env.System.{Os}
use my_leveldb.Env.Streams.{IsQuiet, write_string_to_file-reports}
use my_leveldb.Env.Reading.{IsStream}
use my_leveldb.Env.RoundTrip.{IsDisk, write_string_to_file-read_file_to_string}

-- The file, what the stream was given with its name, and what is left to be read.
record World : Type 0 where
  file : Option Bytes
  given : Bytes
  name : Bytes
  is_open : Bool
  reading : Bytes
  at_end : Bool

abbrev new_world : World
new_world = record {
  file = none;
  given = [];
  name = [];
  is_open = false;
  reading = [];
  at_end = false;
}

abbrev handle_of : Option Bytes → Option ℕ
handle_of none = none
handle_of (some d) = some 3

abbrev bytes_of : Option Bytes → Bytes
bytes_of none = []
bytes_of (some d) = d

-- Calls that the runs do not make do nothing.
abbrev one_file : Os World
one_file = record {
  fopen = λ n w. (handle_of w.file, record w { reading = bytes_of w.file; at_end = false });
  fclose = λ f w. (tt, w);
  fread = λ f n w. (
    take n w.reading,
    record w { reading = drop n w.reading; at_end = ltb (length w.reading) n },
  );
  feof = λ f w. w.at_end;
  fseek = λ f n w. (false, record w { reading = drop n w.reading });
  strerror = λ w. [];
  open_fd = λ n w. (none, w);
  lseek = λ f n w. (true, w);
  read_fd = λ f n w. (none, w);
  close_fd = λ f w. (tt, w);
  pread = λ f o n w. (none, w);
  stream_open = λ n w. (4, record w { given = []; name = n; is_open = true });
  stream_write = λ f d w. (tt, record w { given = w.given ++ d });
  stream_good = λ f w. true;
  stream_is_open = λ f w. w.is_open;
  stream_flush = λ f w. (none, w);
  stream_close = λ f w. (none, record w { file = some w.given; is_open = false });
  exists = λ n w. false;
  is_directory = λ n w. false;
  list_directory = λ n w. (([], none), w);
  remove = λ n w. (none, record w { file = none });
  create_directories = λ n w. ((true, []), w);
  remove_all = λ n w. ((0, []), w);
  file_size = λ n w. ((0, none), w);
  rename = λ a b w. (none, w);
  temp_directory_path = λ w. none;
  process_id = λ w. [];
  create_file = λ n w. (tt, w);
  file_lock = λ n w. ((0, none), w);
  fopen_text = λ n w. (some 5, w);
  fwrite = λ f d w. (tt, w);
  fflush = λ f w. (tt, w);
  log_header = λ r w. [];
  universal_time = λ w. 0;
  sleep = λ m w. (tt, w);
  call_once = λ w. (true, w);
  try_lock = λ l w. ((true, none), w);
  unlock = λ l w. (none, w);
}

one_file-IsStream : IsStream one_file 3 (λ w. w.reading)
one_file-IsStream = record {
  delivers = λ n w. refl;
  advances = λ n w. refl;
  ends = λ n w h. lt→ltb (length w.reading) n h;
}

one_file-IsQuiet : IsQuiet one_file
one_file-IsQuiet = record { quiet_flush = λ f w. refl; quiet_close = λ f w. refl }

one_file-reopens :
    (n d : Bytes) (w : World)
    → w.file ≡ some d
    → (f : ℕ) × ((one_file.fopen n w).0 ≡ some f)
      × ((one_file.fopen n w).1.reading ≡ d)
      × IsStream one_file f (λ v. v.reading)
one_file-reopens n d w e = (
  3,
  ap handle_of e,
  ap bytes_of e,
  record {
    delivers = λ m v. refl;
    advances = λ m v. refl;
    ends = λ m v h. lt→ltb (length v.reading) m h;
  },
)

one_file-IsDisk : IsDisk one_file
one_file-IsDisk = record {
  contents = λ w n. w.file;
  given = λ h w. w.given;
  name = λ h w. w.name;
  left = λ f w. w.reading;
  opens = λ n w g. (refl, refl, refl);
  writes = λ h d w g. (refl, refl, refl, refl);
  flushes = λ h w g. (refl, refl, refl);
  closes = λ h w g. (refl, refl, refl);
  reopens = one_file-reopens;
}

write_string_to_file-reports_example :
    (st : Status) × (w : World) × (write_string_to_file
        (posix_env one_file)
        (7 ∷ 8 ∷ [])
        (1 ∷ [])
        new_world
      ≡ some (st, w))
    × (is_ok st ≡ true)
    × ((is_ok st ≡ true) ⊎ ((v : World) × (w ≡ record v { file = none })))
write_string_to_file-reports_example =
    write_string_to_file-reports one_file one_file-IsQuiet (7 ∷ 8 ∷ []) (1 ∷ []) new_world

write_string_to_file-read_file_to_string_example :
    (t : World) × (u : World) × (write_string_to_file
        (posix_env one_file)
        (7 ∷ 8 ∷ [])
        (1 ∷ [])
        new_world
      ≡ some (ok_status, t))
    × (read_file_to_string (posix_env one_file) 2 (1 ∷ []) t ≡ some ((ok_status, 7 ∷ 8 ∷ []), u))
write_string_to_file-read_file_to_string_example =
    write_string_to_file-read_file_to_string one_file one_file-IsQuiet one_file-IsDisk (7 ∷ 8 ∷ [])
      (1 ∷ []) 1 new_world refl (omega arith)

-- A clock that is at one microsecond before midnight, and at one after it at the end of a file.
abbrev at_midnight : Os World
at_midnight = record one_file {
  universal_time = λ w. if w.at_end then 86400000001 else 86399999999;
}

abbrev later_world : World
later_world = record new_world { at_end = true }

now_micros_same_day_example :
    (x : ℕ) × (y : ℕ) × (now_micros at_midnight new_world ≡ some (x, new_world))
    × (now_micros at_midnight later_world ≡ some (y, later_world))
    × (x < micros_per_day)
    × (y < micros_per_day)
    × ((x + (86400000001 - 86399999999) ≡ y)
        ↔ (86399999999 / micros_per_day ≡ 86400000001 / micros_per_day))
now_micros_same_day_example = now_micros_same_day at_midnight new_world later_world (omega arith)
