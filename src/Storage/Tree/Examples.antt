-- ===== src/Storage/Tree/Examples.antt =====
-- storage.py: a tree of two artifact stores, one with an expired artifact.
use codexnet.Prelude.{refl, Option, ℕ, ◌⊎◌, ◌≡◌, [], ◌∷◌, none, some, true, false}
use codexnet.Artifacts.{
  ArtifactMetadata, Codec, Directory, metadata_name, regular_file, has_metadata_suffix,
  validate_filename, is_safe_name, is_name_char, is_alphanumeric,
}
use codexnet.Artifacts.Retention.{
  prune_items, prune_item, check_regular, metadata_names, past, read_all, read_entry,
  parse_metadata, read_metadata, expired, prune_expired,
}
use codexnet.OrderedDict.{is_key, remove, put, lookup}
use codexnet.Prelude.Order.{insert_by, sort_by, list_lt}
use codexnet.Prelude.Keys.{list_beq, nat_eq, list_eq}
use codexnet.Prelude.Text.{Text, codes}
use codexnet.Prelude.Result.{ok}
use codexnet.Storage.Pruner.{directory}
use codexnet.Storage.Tree.{
  TreeEntry, ArtifactTree, caught, prune_entry, prune_entries, prune_artifact_tree,
}
use codexnet.Storage.Tree.Dry.{in_name_order, prune_tree_dry}

abbrev ends_at : Text → Option ℕ
ends_at [] = none
ends_at (c ∷ cs) = some c

abbrev log_of : Text → ArtifactMetadata
log_of name = record {
  schema_version = 1;
  filename = name;
  category = codes "logs";
  media_type = codes "text/plain";
  size_bytes = 1;
  sha256 = [];
  created_at = 1 ∷ [];
  expires_at = 4 ∷ [];
}

-- Metadata whose bytes are the name.
abbrev name_codec : Codec
name_codec = record {
  dumps = λ m. m.filename;
  loads = λ raw. some (log_of raw);
  sha256_hex = λ bytes. [];
  isoformat = λ time. time ∷ [];
  fromisoformat = ends_at;
}

abbrev entry_with : Directory → TreeEntry
entry_with files = record {
  entry_type = directory;
  prepared = true;
  store = record {
    max_bytes = 10;
    root_opens = true;
    has_space = λ bytes. true;
    refuses = λ name. false;
  };
  files = files;
}

abbrev log_name : Text
log_name = codes "a.log"

abbrev log_files : Directory
log_files = (log_name, regular_file (7 ∷ [])) ∷ (metadata_name log_name, regular_file log_name) ∷ []

abbrev two_stores : ArtifactTree
two_stores = record {
  exists = true;
  tree_type = directory;
  stores = (codes "snmp", entry_with log_files) ∷ (codes "nmap", entry_with []) ∷ [];
}

-- What the run below computes with.
tree_program : Unit {0}
unfolding is_alphanumeric is_name_char is_safe_name validate_filename has_metadata_suffix
    parse_metadata read_entry read_metadata read_all past metadata_names expired check_regular
    prune_item prune_items prune_expired list_beq list_lt sort_by insert_by lookup put remove is_key
    caught prune_entry prune_entries prune_artifact_tree
tree_program = tt

one_pruned : (prune_artifact_tree name_codec 5 false two_stores).1 ≡ ok 1
unfolding tree_program
one_pruned = refl

-- Of the two files of the artifact nothing is left.
both_gone :
    (prune_artifact_tree name_codec 5 false two_stores).0.stores
    ≡ (codes "nmap", entry_with []) ∷ (codes "snmp", entry_with []) ∷ []
unfolding tree_program
both_gone = refl

prune_tree_dry_example :
    let run = prune_artifact_tree name_codec 5 true two_stores in
    (run.1 ≡ ok 1) × ((run.0 ≡ two_stores) ⊎ (run.0 ≡ in_name_order two_stores))
prune_tree_dry_example = prune_tree_dry name_codec 5 two_stores 1 one_pruned
