-- ===== src/Storage/Tests.antt =====
-- The theorems about drives and files at a table of one drive, and at an open file of eight bytes.
use dek_os.Base.{◌%◌, ◌≡◌, refl, arith, true, ◌==◌, if◌then◌else◌, none, some}
use dek_os.Storage.{Drive}
use dek_os.Storage.Image.{Image}
use dek_os.Storage.Manager.{Manager, IsSelected}
use dek_os.Storage.Files.{SysFile, Files, f_read, no_file}
use dek_os.Storage.Files.Reading.{MayRead, f_read_past_end}

abbrev disk : Drive Image
disk = record {
  buffer_a = λ _. 0;
  reads = true;
  writes = true;
  lba = 0;
  valid = true;
  present = true;
  drive_num = 0;
  size_of_op = 0;
  device = λ l i. 0;
}

abbrev drives : Manager Image
drives = record {
  drives = λ _. disk;
  current_drive = none;
  drive_count = 1;
  drive_stack = λ _. none;
  drive_stack_sp = 0;
}

drives-IsSelected : IsSelected drives
drives-IsSelected = record { selected = λ n e. cc }

abbrev eight : SysFile
eight = record { ptr = 0x2000; remaining = 8; size = 8; base = 0x2000; flags = 3; path = 0x3000 }

abbrev opened : Files
opened = record {
  file = λ i. if i == 0 then eight else no_file;
  heap = record {
    bytes = λ a. a % 256;
    map = λ _. 0;
    raw = 0x1000;
    heap_size = 64;
    mem_size = 0x2000;
    heap_start = 0x1000;
    heap_end = 0x1040;
    heap_map_start = 0x1040;
    heap_map_end = 0x1041;
  };
}

opened-MayRead : MayRead 0x4000 2 4 0 opened
opened-MayRead = record {
  contents = (omega arith, omega arith);
  readable = refl;
  buffer = omega arith;
  asked = (omega arith, omega arith);
  small = omega arith;
}

abbrev read_once : Files
read_once = (f_read 0x4000 2 4 (some 0) opened).1

-- The second read copies from 0x2008 on, where the file has ended.
f_read_past_end_example :
    let (count, s') = f_read 0x5000 2 4 (some 0) read_once in
    (count ≡ 8) × (s'.heap.bytes 0x5003 ≡ read_once.heap.bytes 0x200b)
f_read_past_end_example =
    f_read_past_end 0x4000 0x5000 2 4 0 3 opened opened-MayRead (omega arith) (omega arith)
      (omega arith) (omega arith) (omega arith) (omega arith)
