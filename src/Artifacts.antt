-- ===== src/Artifacts.antt =====
-- artifacts.py: `ArtifactStore`, with the files of its directory as the state that it changes.
pub mod Retention
pub mod Publishing
mod Examples
use codexnet.Prelude.{
  ◌+◌, ◌-◌, drop, length, ltb, Option, all, if◌then◌else◌, leb, nat_beq, ◌++◌, Bool, List, ℕ, [],
  ◌∷◌, none, some, false, true, not, ◌&&◌, ◌||◌,
}
use codexnet.Prelude.Order.{list_order, nat_order, pair_order, sort_by}
use codexnet.Prelude.Keys.{list_beq, list_eq, nat_eq, option_eq, pair_eq}
use codexnet.Prelude.Text.{codes, Text}
use codexnet.Prelude.Result.{Result, ok, err, ◌>>=◌, ◌>>◌, raise_if}
use codexnet.OrderedDict.{OrderedDict, lookup, put, remove, is_key}

-- The `ArtifactError`s by message, and the `OSError`s of the calls of `os`.
pub data ArtifactError : Type 0 where
  unsafe_name reserved_suffix bad_category bad_retention : ArtifactError
  too_large : ℕ → ArtifactError
  unsafe_root metadata_not_regular metadata_invalid metadata_mismatch : ArtifactError
  entry_not_regular : ArtifactError
  refused_by_guard write_failed unlink_failed file_exists file_not_found : ArtifactError
  too_many_links : ArtifactError

pub record ArtifactMetadata : Type 0 where
  pub schema_version : ℕ
  pub filename : Text
  pub category : Text
  pub media_type : Text
  pub size_bytes : ℕ
  pub sha256 : Text
  pub created_at : Text
  pub expires_at : Text

-- An entry of the directory, by its type; a regular file has its bytes.
pub data Entry : Type 0 where
  regular_file : List ℕ → Entry
  link subdirectory : Entry

abbrev pub Directory : Type 0
Directory = OrderedDict Text Entry

-- json.dumps and json.loads of the metadata (`none` where `_read_metadata` catches an exception),
-- SHA-256, and `datetime.isoformat` with its reader.
pub record Codec : Type 0 where
  pub dumps : ArtifactMetadata → List ℕ
  pub loads : List ℕ → Option ArtifactMetadata
  pub sha256_hex : List ℕ → Text
  pub isoformat : ℕ → Text
  pub fromisoformat : Text → Option ℕ

-- A store: its limit, whether its root opens without following links, what the space guard says of
-- a number of bytes, and which names the operating system refuses to delete in the retention.
pub record ArtifactStore : Type 0 where
  pub max_bytes : ℕ
  pub root_opens : Bool
  pub has_space : ℕ → Bool
  pub refuses : Text → Bool

-- Where a publication fails besides the test of the name: in front of `os.link` (the staging file
-- cannot be made or written), or behind it (it cannot be closed or removed).
pub data PublishFault : Type 0 where
  no_fault before_link after_link : PublishFault

-- Failures of the disk while a file is written: of the two publications, of the deletion of the
-- metadata when the second fails, and of the closing of the directory.
pub record Faults : Type 0 where
  pub metadata_fault : PublishFault
  pub payload_fault : PublishFault
  pub cleanup_fails : Bool
  pub close_fails : Bool

abbrev pub metadata_suffix : Text
metadata_suffix = codes ".metadata.json"

abbrev pub max_metadata_bytes : ℕ
max_metadata_bytes = 65536

unfoldable pub is_alphanumeric : ℕ → Bool
is_alphanumeric c =
    (leb b'a' c && leb c b'z') || (leb b'A' c && leb c b'Z') || (leb b'0' c && leb c b'9')

unfoldable pub is_name_char : ℕ → Bool
unfolding is_alphanumeric
is_name_char c = is_alphanumeric c || nat_beq c b'.' || nat_beq c b'_' || nat_beq c b'-'

-- _SAFE_NAME.fullmatch(filename)
unfoldable pub is_safe_name : Text → Bool
unfolding is_name_char
is_safe_name [] = false
is_safe_name (c ∷ cs) = is_alphanumeric c && all is_name_char cs && leb (length cs) 99

unfoldable pub is_category_char : ℕ → Bool
is_category_char c =
    (leb b'a' c && leb c b'z') || (leb b'0' c && leb c b'9') || nat_beq c b'_' || nat_beq c b'-'

-- _SAFE_CATEGORY.fullmatch(category)
unfoldable pub is_safe_category : Text → Bool
unfolding is_category_char
is_safe_category [] = false
is_safe_category (c ∷ cs) =
    leb b'a' c && leb c b'z' && all is_category_char cs && leb (length cs) 31

unfoldable pub validate_filename : Text → Result ArtifactError Text
validate_filename name = if is_safe_name name then ok name else err unsafe_name

-- filename.endswith(_METADATA_SUFFIX)
unfoldable pub has_metadata_suffix : Text → Bool
has_metadata_suffix name =
    list_beq (drop (length name - length metadata_suffix) name) metadata_suffix

abbrev pub metadata_name : Text → Text
metadata_name filename = filename ++ metadata_suffix

-- _publish: the staging file is linked to its name if that is free. The staging file itself has a
-- name that nothing else reads, and is not an entry of the model's directory, removed or not.
unfoldable pub publish :
    PublishFault → Text → List ℕ → Directory → Directory × Result ArtifactError (Unit {0})
publish before_link name payload files = (files, err write_failed)
publish no_fault name payload files =
    if is_key name files
    then (files, err file_exists)
    else (put name (regular_file payload) files, ok tt)
publish after_link name payload files =
    if is_key name files
    then (files, err file_exists)
    else (put name (regular_file payload) files, err write_failed)

-- The `except` block behind the second publication.
abbrev pub with_payload :
    Bool
    → ArtifactMetadata
    → Text
    → Directory × Result ArtifactError (Unit {0})
    → Directory × Result ArtifactError ArtifactMetadata
with_payload cleanup_fails metadata name (files, ok done) = (files, ok metadata)
with_payload false metadata name (files, err e) = (remove name files, err e)
with_payload true metadata name (files, err e) = (files, err write_failed)

abbrev pub with_metadata :
    Faults
    → ArtifactMetadata
    → List ℕ
    → Directory × Result ArtifactError (Unit {0})
    → Directory × Result ArtifactError ArtifactMetadata
with_metadata faults metadata payload (files, err e) = (files, err e)
with_metadata faults metadata payload (files, ok done) =
    with_payload faults.cleanup_fails metadata (metadata_name metadata.filename)
      (publish faults.payload_fault metadata.filename payload files)

-- os.close(directory_fd)
abbrev pub closed :
    Bool
    → Directory × Result ArtifactError ArtifactMetadata
    → Directory × Result ArtifactError ArtifactMetadata
closed true (files, outcome) = (files, err write_failed)
closed false run = run

module _ (k : Codec) (store : ArtifactStore) where
  abbrev pub metadata_of : Text → List ℕ → Text → ℕ → Text → ℕ → ArtifactMetadata
  metadata_of name payload category' retention media_type' created = record {
    schema_version = 1;
    filename = name;
    category = category';
    media_type = media_type';
    size_bytes = length payload;
    sha256 = k.sha256_hex payload;
    created_at = k.isoformat created;
    expires_at = k.isoformat (created + retention);
  }

  -- The checks of `_write`, with the metadata that it builds.
  unfoldable pub prepare :
      Text → List ℕ → Text → ℕ → Text → ℕ → Result ArtifactError ArtifactMetadata
  prepare name payload category' retention media_type' created = do
    checked ← validate_filename name
    raise_if (has_metadata_suffix checked) reserved_suffix
    raise_if (not (is_safe_category category')) bad_category
    raise_if (nat_beq retention 0) bad_retention
    raise_if (ltb store.max_bytes (length payload)) (too_large store.max_bytes)
    let metadata = metadata_of checked payload category' retention media_type' created
    raise_if (not (store.has_space (length payload + length (k.dumps metadata)))) refused_by_guard
    raise_if (not store.root_opens) unsafe_root
    ok metadata

  -- _write; `retention` and `created` are microseconds, and a retention is not negative here.
  unfoldable pub write :
      Faults
      → Text
      → List ℕ
      → Text
      → ℕ
      → Text
      → ℕ
      → Directory
      → Directory × Result ArtifactError ArtifactMetadata
  unfolding prepare publish
  write faults name payload category' retention media_type' created files =
      elim (prepare name payload category' retention media_type' created) [
        | err e ↦ (files, err e)
        | ok metadata ↦ closed faults.close_fails (
            with_metadata faults metadata payload (
              publish faults.metadata_fault (metadata_name metadata.filename) (k.dumps metadata)
                files))
      ]
