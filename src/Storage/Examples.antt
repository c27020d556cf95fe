-- ===== src/Storage/Examples.antt =====
-- storage.py: a data root with an old backup, a new one and another file, and a guarded disk.
use codexnet.Prelude.{
  Bool, false, refl, arith, length, ◌&&◌, ◌/◌, List, leb, nat_beq, ℕ, ◌≡◌, [], ◌∷◌, some, true, ◌≤◌,
  ◌<◌, ◌*◌, ◌+◌, ◌-◌,
}
use codexnet.Storage.Guard.{
  inspect, percentage, nearest, FilePath, DiskStatus, DiskGuard, Surroundings, check,
}
use codexnet.OrderedDict.{remove, lookup, Distinct}
use codexnet.Prelude.Order.{insert_by, sort_by, list_lt}
use codexnet.Prelude.Keys.{list_beq, nat_eq, list_eq}
use codexnet.Storage.Pruner.{
  unlink_items, check_items, check_item, scan, open_root, is_backup_name, after_digits,
  after_literal, changed_after_preview, unlink_failed, Clock, FileInfo, OwnedFile, BackupRoot,
  regular, directory, plan, apply, owned,
}
use codexnet.Storage.Pruner.Planning.{plan_then_apply, kept_unless_due}
use native.Mathlib.Nat.{div-mul-le_self, lt-div-mul-add}
use codexnet.Storage.Guard.Reserve.{check_reserves, IsNearest, Rounds}
use codexnet.Prelude.Text.{Text, codes}
use codexnet.Prelude.Result.{ok, err}

-- The nearest hundredth of a percent, the quotient of twice the parts rounded down.
nearest_hundredth : ℕ → ℕ → ℕ
nearest_hundredth part total = (20000 * part + total) / (2 * total)

abbrev clock : Clock
clock = record { is_decimal = λ c. leb 48 c && leb c 57; microseconds = λ ns. ns }

abbrev file_at : ℕ → FileInfo
file_at time = record {
  file_type = regular;
  device = 1;
  inode = time;
  size = 9;
  modified_ns = time;
}

abbrev old_name : Text
old_name = codes "discovery-backup-20250101T000000Z.db"

abbrev new_name : Text
new_name = codes "discovery-backup-20260101T000000Z.db"

abbrev other_name : Text
other_name = codes "discovery.db"

abbrev root : BackupRoot
root = record {
  status = some directory;
  opens = true;
  entries = (new_name, file_at 7) ∷ (other_name, file_at 1) ∷ (old_name, file_at 3) ∷ [];
}

abbrev old_files : List OwnedFile
old_files = owned old_name (file_at 3) ∷ []

-- What the runs below compute with.
program : Unit {0}
unfolding after_literal after_digits is_backup_name open_root scan plan check_item check_items
    unlink_items apply list_beq list_lt sort_by insert_by lookup remove nearest percentage inspect
    check nearest_hundredth
program = tt

planned : plan clock root 5 ≡ ok old_files
unfolding program
planned = refl

root-Distinct : Distinct root.entries
unfolding program
root-Distinct = (refl, (refl, (refl, tt)))

-- The operating system refuses nothing, or the deletion of one file.
abbrev nothing : Text → Bool
nothing name = false

abbrev only_old : Text → Bool
only_old name = list_beq name old_name

plan_then_apply_example :
    ((apply clock nothing root old_files).1 ≡ ok old_files)
    × ((x : Text)
        → lookup x (apply clock nothing root old_files).0.entries
          ≡ kept_unless_due clock 5 x (lookup x root.entries))
plan_then_apply_example =
    plan_then_apply clock 5 nothing root old_files root-Distinct planned (λ item h. refl)

-- The file has another size than the plan saw.
abbrev stale : List OwnedFile
stale =
    record {
      name = old_name;
      owner_device = 1;
      owner_inode = 3;
      owner_size = 8;
      owner_modified_ns = 3;
    }
    ∷ []

refused : apply clock nothing root stale ≡ (root, err changed_after_preview)
unfolding program
refused = refl

kept_when_refused : apply clock only_old root old_files ≡ (root, err unlink_failed)
unfolding program
kept_when_refused = refl

-- A disk of a thousand bytes with two hundred free, which keeps a tenth.
abbrev surroundings : Surroundings
surroundings = record {
  exists = λ path. nat_beq (length path) 1;
  rounded_percent = nearest_hundredth;
}

surroundings-Rounds : Rounds surroundings
unfolding nearest_hundredth
surroundings-Rounds part total some_total =
    let below = div-mul-le_self (20000 * part + total) (2 * total) in
    let above = lt-div-mul-add {a = 20000 * part + total} {b = 2 * total} (omega arith) in
    (omega (arith, below), omega (arith, above))

abbrev guard : DiskGuard
guard = record {
  least_bytes = 50;
  least_percent = 10;
  usage_probe = λ path. record { total = 1000; free = 200 };
}

abbrev below_data : FilePath
below_data = codes "new" ∷ codes "data" ∷ []

abbrev status : DiskStatus
status = record {
  checked_path = codes "data" ∷ [];
  total_bytes = 1000;
  free_bytes = 200;
  required_bytes = 100;
  remaining_bytes = 100;
  remaining_percent = 1000;
  minimum_free_bytes = 50;
  minimum_free_percent = 10;
  allowed = true;
}

checked : check surroundings guard below_data 100 ≡ ok status
unfolding program
checked = refl

check_reserves_example :
    IsNearest surroundings below_data (codes "data" ∷ [])
    × (50 ≤ 200 - 100)
    × (0 < 1000 → 200 * (10 * 1000) ≤ 20000 * (200 - 100) + 1000)
check_reserves_example =
    check_reserves surroundings guard below_data 100 status surroundings-Rounds checked
