-- ===== src/Artifacts/Retention.antt =====
-- artifacts.py: `_read_metadata`, `expired` and `prune_expired`.
pub mod Names
pub mod Limits
pub mod Pruning
use codexnet.Artifacts.{
  unlink_failed, length, metadata_mismatch, list_beq, max_metadata_bytes, entry_not_regular,
  is_safe_name, ltb, sort_by, file_not_found, has_metadata_suffix, leb, lookup, metadata_invalid,
  metadata_not_regular, remove, unsafe_root, Bool, is_key, metadata_name, too_many_links,
  validate_filename, ℕ, ArtifactError, ArtifactMetadata, ArtifactStore, Entry, Text, Codec,
  Directory, List, Option, regular_file, link, subdirectory,
}
use codexnet.Prelude.{
  length, ltb, leb, Bool, if◌then◌else◌, ℕ, List, Option, [], ◌∷◌, none, some, true, false, not,
}
use codexnet.Prelude.Keys.{list_beq, list_eq, nat_eq, option_eq, pair_eq}
use codexnet.Prelude.Order.{list_order, nat_order, pair_order, sort_by}
use codexnet.OrderedDict.{lookup, remove, is_key}
use codexnet.Prelude.Text.{Text}
use codexnet.Prelude.Result.{Result, ok, err, ◌>>=◌, ◌>>◌, raise_if}

unfoldable pub metadata_names : Directory → List Text
metadata_names [] = []
metadata_names ((name, entry) ∷ files) =
    let rest = metadata_names files in if has_metadata_suffix name then name ∷ rest else rest

module _ (k : Codec) (store : ArtifactStore) where
  -- The reading of the bytes of a metadata file.
  unfoldable pub parse_metadata : Text → List ℕ → Result ArtifactError ArtifactMetadata
  parse_metadata name raw = elim (k.loads raw) [
    | none ↦ err metadata_invalid
    | some metadata ↦ do
      raise_if (not (is_safe_name metadata.filename)) metadata_invalid
      elim (k.fromisoformat metadata.expires_at) [
        | none ↦ err metadata_invalid
        | some time ↦
            if list_beq name (metadata_name metadata.filename)
            then ok metadata
            else err metadata_mismatch
      ]
  ]

  unfoldable pub read_entry : Text → Entry → Result ArtifactError ArtifactMetadata
  unfolding parse_metadata
  read_entry name link = err too_many_links
  read_entry name subdirectory = err metadata_not_regular
  read_entry name (regular_file raw) =
      if ltb max_metadata_bytes (length raw)
      then err metadata_not_regular
      else parse_metadata name raw

  unfoldable pub read_metadata : Directory → Text → Result ArtifactError ArtifactMetadata
  unfolding read_entry validate_filename
  read_metadata files name = do
    checked ← validate_filename name
    elim (lookup checked files) [
      | none ↦ err file_not_found
      | some entry ↦ read_entry checked entry
    ]

  unfoldable pub read_all : Directory → List Text → Result ArtifactError (List ArtifactMetadata)
  read_all files [] = ok []
  read_all files (name ∷ names) = do
    metadata ← read_metadata files name
    rest ← read_all files names
    ok (metadata ∷ rest)

  -- datetime.fromisoformat(item.expires_at) <= cutoff
  abbrev pub is_past : ℕ → Option ℕ → Bool
  is_past cutoff none = false
  is_past cutoff (some time) = leb time cutoff

  unfoldable pub past : ℕ → List ArtifactMetadata → List ArtifactMetadata
  past cutoff [] = []
  past cutoff (m ∷ ms) =
      let rest = past cutoff ms in
      if is_past cutoff (k.fromisoformat m.expires_at) then m ∷ rest else rest

  unfoldable pub expired : Directory → ℕ → Result ArtifactError (List ArtifactMetadata)
  unfolding read_all past metadata_names
  expired files cutoff = do
    raise_if (not store.root_opens) unsafe_root
    found ← read_all files (sort_by (λ name. name) (metadata_names files))
    ok (past cutoff found)

abbrev pub is_regular_entry : Option Entry → Bool
is_regular_entry none = false
is_regular_entry (some (regular_file raw)) = true
is_regular_entry (some link) = false
is_regular_entry (some subdirectory) = false

-- The checks of `prune_expired` on one name.
unfoldable pub check_regular : Directory → Text → Result ArtifactError (Unit {0})
check_regular files name = do
  raise_if (not (is_key name files)) file_not_found
  raise_if (not (is_regular_entry (lookup name files))) entry_not_regular

abbrev pub after_item :
    Directory × Result ArtifactError (Unit {0})
    → (Directory → Directory × Result ArtifactError (Unit {0}))
    → Directory × Result ArtifactError (Unit {0})
after_item (files, ok done) next = next files
after_item (files, err e) next = (files, err e)

-- The body of the loop of `prune_expired`: both files are checked, then both are deleted, unless the
-- operating system refuses one of them.
unfoldable pub prune_item :
    (Text → Bool) → Directory → Text → Directory × Result ArtifactError (Unit {0})
unfolding check_regular
prune_item refuses files filename =
    elim (check_regular files filename >> check_regular files (metadata_name filename)) [
      | err e ↦ (files, err e)
      | ok done ↦
          if refuses filename
          then (files, err unlink_failed)
          else if refuses (metadata_name filename)
          then (remove filename files, err unlink_failed)
          else (remove (metadata_name filename) (remove filename files), ok tt)
    ]

unfoldable pub prune_items :
    (Text → Bool) → List ArtifactMetadata → Directory → Directory × Result ArtifactError (Unit {0})
unfolding prune_item
prune_items refuses [] files = (files, ok tt)
prune_items refuses (m ∷ ms) files =
    after_item (prune_item refuses files m.filename) (prune_items refuses ms)

abbrev pub with_expired :
    List ArtifactMetadata
    → Directory × Result ArtifactError (Unit {0})
    → Directory × Result ArtifactError (List ArtifactMetadata)
with_expired found (files, outcome) = (files, outcome >> ok found)

unfoldable pub prune_expired :
    Codec
    → ArtifactStore
    → ℕ
    → Bool
    → Directory
    → Directory × Result ArtifactError (List ArtifactMetadata)
unfolding expired prune_items
prune_expired k store cutoff dry_run files = elim (expired k store files cutoff) [
  | err e ↦ (files, err e)
  | ok found ↦
      if dry_run
      then (files, ok found)
      else with_expired found (prune_items store.refuses found files)
]
