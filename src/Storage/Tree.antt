-- ===== src/Storage/Tree.antt =====
-- storage.py: `prune_artifact_tree`, which prunes the artifact stores below one root.
pub mod Dry
mod Examples
use codexnet.Prelude.{ℕ, ◌+◌, Bool, true, false, not, List, [], ◌∷◌, if◌then◌else◌, length}
use codexnet.Prelude.Keys.{nat_eq, list_eq}
use codexnet.Prelude.Order.{list_order, nat_order, sort_by}
use codexnet.Prelude.Text.{Text}
use codexnet.Prelude.Result.{Result, ok, err, ◌>>◌, raise_if}
use codexnet.OrderedDict.{OrderedDict}
use codexnet.Artifacts.{
  unlink_failed, ArtifactError, ArtifactMetadata, ArtifactStore, Codec, Directory, unsafe_name,
  reserved_suffix, bad_category, bad_retention, too_large, unsafe_root, metadata_not_regular,
  metadata_invalid, metadata_mismatch, entry_not_regular, refused_by_guard, write_failed,
  file_exists, file_not_found, too_many_links,
}
use codexnet.Artifacts.Retention.{prune_expired}
use codexnet.Storage.Pruner.{FileType, is_directory}

-- The `UnsafeStoragePath`s by message, and an error that passes through.
pub data TreeError : Type 0 where
  tree_not_directory unexpected_entry path_unsafe : TreeError
  passed_through : ArtifactError → TreeError

-- An entry of the root: its type, whether `_ensure_root` accepts it, and the store with its files.
pub record TreeEntry : Type 0 where
  pub entry_type : FileType
  pub prepared : Bool
  pub store : ArtifactStore
  pub files : Directory

-- The root: whether it exists, its own type, and its entries in the order of `os.scandir`.
pub record ArtifactTree : Type 0 where
  pub exists : Bool
  pub tree_type : FileType
  pub stores : List (Text × TreeEntry)

-- except UnsafeArtifactPath: other `ArtifactError`s, an `OSError` and the guard's error are not such
unfoldable pub caught : ArtifactError → TreeError
caught unsafe_name = path_unsafe
caught reserved_suffix = path_unsafe
caught bad_category = passed_through bad_category
caught bad_retention = passed_through bad_retention
caught (too_large n) = passed_through (too_large n)
caught unsafe_root = path_unsafe
caught metadata_not_regular = path_unsafe
caught metadata_invalid = path_unsafe
caught metadata_mismatch = path_unsafe
caught entry_not_regular = path_unsafe
caught refused_by_guard = passed_through refused_by_guard
caught write_failed = passed_through write_failed
caught unlink_failed = passed_through unlink_failed
caught file_exists = passed_through file_exists
caught file_not_found = passed_through file_not_found
caught too_many_links = passed_through too_many_links

abbrev pub count_of : Result ArtifactError (List ArtifactMetadata) → Result TreeError ℕ
unfolding caught
count_of (ok found) = ok (length found)
count_of (err e) = err (caught e)

module _ (k : Codec) (cutoff : ℕ) (dry_run : Bool) where
  -- The body of the loop: the files that are left, and how many artifacts are counted.
  unfoldable pub prune_entry : TreeEntry → Directory × Result TreeError ℕ
  unfolding prune_expired caught
  prune_entry entry =
      if not (is_directory entry.entry_type)
      then (entry.files, err unexpected_entry)
      else if not entry.prepared
      then (entry.files, err path_unsafe)
      else let run = prune_expired k entry.store cutoff dry_run entry.files in
        (run.0, count_of run.1)

  -- An error ends the loop: the entries before it stay pruned.
  unfoldable pub prune_entries :
      List (Text × TreeEntry) → ℕ → List (Text × TreeEntry) × Result TreeError ℕ
  unfolding prune_entry
  prune_entries [] count = ([], ok count)
  prune_entries ((name, entry) ∷ entries) count =
      let run = prune_entry entry in
      let here : Text × TreeEntry = (name, record entry { files = run.0 }) in
      elim run.1 [
        | err e ↦ (here ∷ entries, err e)
        | ok n ↦ let later = prune_entries entries (count + n) in (here ∷ later.0, later.1)
      ]

  unfoldable pub prune_artifact_tree : ArtifactTree → ArtifactTree × Result TreeError ℕ
  unfolding prune_entries
  prune_artifact_tree tree =
      if not tree.exists
      then (tree, ok 0)
      else if not (is_directory tree.tree_type)
      then (tree, err tree_not_directory)
      else let run = prune_entries (sort_by (λ e. e.0) tree.stores) 0 in
        (record tree { stores = run.0 }, run.1)
