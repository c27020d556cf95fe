-- ===== src/Storage/Pruner.antt =====
-- storage.py: `BackupPruner`, with the backup root as the state that it changes.
pub mod Applying
pub mod Planning
use codexnet.Prelude.{
  [], ◌∷◌, ltb, if◌then◌else◌, nat_beq, Bool, List, Option, ℕ, none, some, true, false, not, ◌&&◌,
  zero, suc, ◌||◌,
}
use codexnet.Prelude.Keys.{list_beq, list_eq, nat_eq, option_eq, pair_eq}
use codexnet.Prelude.Order.{list_order, nat_order, pair_order, sort_by}
use codexnet.Prelude.Text.{codes, Text}
use codexnet.Prelude.Result.{Result, ok, err, ◌>>=◌, ◌>>◌, raise_if}
use codexnet.OrderedDict.{OrderedDict, lookup, remove}

-- The `UnsafeStoragePath`s by message, the `FileNotFoundError` of `os.stat` and `os.unlink`, and
-- the other `OSError`s of `os.unlink`.
pub data PruneError : Type 0 where
  root_unavailable root_not_directory root_not_link_safe : PruneError
  not_regular invalid_name changed_after_preview : PruneError
  file_not_found unlink_failed : PruneError

-- stat.S_IFMT of a mode, as far as the source tells the kinds apart
pub data FileType : Type 0 where
  regular directory symlink other_type : FileType

pub record FileInfo : Type 0 where
  pub file_type : FileType
  pub device : ℕ
  pub inode : ℕ
  pub size : ℕ
  pub modified_ns : ℕ

pub record OwnedFile : Type 0 where
  pub name : Text
  pub owner_device : ℕ
  pub owner_inode : ℕ
  pub owner_size : ℕ
  pub owner_modified_ns : ℕ

-- The data root: what `lstat` says of it, whether it opens without following links, and its
-- entries in the order of `os.scandir`.
pub record BackupRoot : Type 0 where
  pub status : Option FileType
  pub opens : Bool
  pub entries : OrderedDict Text FileInfo

-- `\d` of a pattern over text, and the microseconds of `datetime.fromtimestamp(info.st_mtime)`.
pub record Clock : Type 0 where
  pub is_decimal : ℕ → Bool
  pub microseconds : ℕ → ℕ

abbrev pub is_regular : FileType → Bool
is_regular regular = true
is_regular directory = false
is_regular symlink = false
is_regular other_type = false

abbrev pub is_directory : FileType → Bool
is_directory directory = true
is_directory regular = false
is_directory symlink = false
is_directory other_type = false

-- The text behind a literal one, if it starts so.
unfoldable pub after_literal : Text → Text → Option Text
after_literal [] s = some s
after_literal (c ∷ cs) [] = none
after_literal (c ∷ cs) (d ∷ ds) =
    let rest = after_literal cs ds in if nat_beq c d then rest else none

module _ (clock : Clock) where
  -- The text behind so many digits.
  unfoldable pub after_digits : ℕ → Text → Option Text
  after_digits zero s = some s
  after_digits (suc n) [] = none
  after_digits (suc n) (c ∷ cs) =
      let rest = after_digits n cs in if clock.is_decimal c then rest else none

  -- _BACKUP_NAME.fullmatch(name)
  unfoldable pub is_backup_name : Text → Bool
  unfolding after_literal after_digits
  is_backup_name name' = elim (after_literal (codes "discovery-backup-") name') [
    | none ↦ false
    | some date ↦ elim (after_digits 8 date) [
      | none ↦ false
      | some rest ↦ elim (after_literal (codes "T") rest) [
        | none ↦ false
        | some time ↦ elim (after_digits 6 time) [
          | none ↦ false
          | some end ↦ list_beq end (codes "Z.db")
        ]
      ]
    ]
  ]

-- _open_root
unfoldable pub open_root : BackupRoot → Result PruneError (Unit {0})
open_root root = elim root.status [
  | none ↦ err root_unavailable
  | some kind ↦ do
    raise_if (not (is_directory kind)) root_not_directory
    raise_if (not root.opens) root_not_link_safe
    ok tt
]

abbrev pub owned : Text → FileInfo → OwnedFile
owned name' info = record {
  name = name';
  owner_device = info.device;
  owner_inode = info.inode;
  owner_size = info.size;
  owner_modified_ns = info.modified_ns;
}

-- identity != (item.device, item.inode, item.size, item.modified_ns)
abbrev pub same_identity_as : FileInfo → OwnedFile → Bool
same_identity_as info item =
    nat_beq info.device item.owner_device
    && nat_beq info.inode item.owner_inode
    && nat_beq info.size item.owner_size
    && nat_beq info.modified_ns item.owner_modified_ns

-- The second loop: the entries that are left, and whether a name was missing or the operating
-- system refused to delete it (`refuses`), which leaves those behind it.
unfoldable pub unlink_items :
    (Text → Bool)
    → OrderedDict Text FileInfo
    → List OwnedFile
    → OrderedDict Text FileInfo × Result PruneError (Unit {0})
unlink_items refuses entries [] = (entries, ok tt)
unlink_items refuses entries (item ∷ items) =
    let rest = unlink_items refuses (remove item.name entries) items in
    elim (lookup item.name entries) [
      | none ↦ (entries, err file_not_found)
      | some info ↦ if refuses item.name then (entries, err unlink_failed) else rest
    ]

abbrev pub applied :
    BackupRoot
    → List OwnedFile
    → OrderedDict Text FileInfo × Result PruneError (Unit {0})
    → BackupRoot × Result PruneError (List OwnedFile)
applied root plan' (entries', outcome) = (record root { entries = entries' }, outcome >> ok plan')

module _ (clock : Clock) where
  -- for entry in os.scandir(self.data_root)
  unfoldable pub scan : ℕ → OrderedDict Text FileInfo → Result PruneError (List OwnedFile)
  scan before [] = ok []
  scan before ((name', info) ∷ entries) =
      let rest = scan before entries in
      if not (is_backup_name clock name')
      then rest
      else if not (is_regular info.file_type)
      then err not_regular
      else if ltb (clock.microseconds info.modified_ns) before
      then (rest >>= λ files. ok (owned name' info ∷ files))
      else rest

  unfoldable pub plan : BackupRoot → ℕ → Result PruneError (List OwnedFile)
  unfolding scan
  plan root before = do
    open_root root
    files ← scan before root.entries
    ok (sort_by (λ item. item.name) files)

  -- The body of the first loop of `apply`.
  unfoldable pub check_item : OrderedDict Text FileInfo → OwnedFile → Result PruneError (Unit {0})
  check_item entries item = do
    raise_if (not (is_backup_name clock item.name)) invalid_name
    elim (lookup item.name entries) [
      | none ↦ err file_not_found
      | some info ↦
          raise_if (not (is_regular info.file_type) || not (same_identity_as info item))
            changed_after_preview
    ]

  unfoldable pub check_items :
      OrderedDict Text FileInfo → List OwnedFile → Result PruneError (Unit {0})
  unfolding check_item
  check_items entries [] = ok tt
  check_items entries (item ∷ items) = do check_item entries item; check_items entries items

  unfoldable pub apply :
      (Text → Bool) → BackupRoot → List OwnedFile → BackupRoot × Result PruneError (List OwnedFile)
  unfolding open_root check_items unlink_items
  apply refuses root plan' = elim (open_root root >> check_items root.entries plan') [
    | err e ↦ (root, err e)
    | ok done ↦ applied root plan' (unlink_items refuses root.entries plan')
  ]
