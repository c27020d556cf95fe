-- ===== src/Artifacts/Examples.antt =====
-- artifacts.py: an artifact with a short name and one with a long name, and the theorems at them.
use codexnet.Prelude.{refl, arith, Option, ℕ, ◌⊎◌, List, ◌≡◌, [], ◌∷◌, none, some, true, false}
use codexnet.Artifacts.{
  no_fault, before_link, is_key, remove, put, lookup, sort_by, list_beq, prepare, publish,
  has_metadata_suffix, validate_filename, is_safe_category, is_category_char, is_safe_name, Option,
  is_name_char, ℕ, ArtifactError, List, Text, codes, is_alphanumeric, ArtifactMetadata, Codec,
  ArtifactStore, Faults, Directory, write, metadata_name,
}
use codexnet.OrderedDict.{is_key, remove, put, lookup}
use codexnet.Prelude.Order.{insert_by, sort_by, list_lt}
use codexnet.Prelude.Keys.{list_beq, nat_eq, list_eq}
use codexnet.Artifacts.Retention.{
  prune_items, prune_item, check_regular, metadata_names, past, read_all, read_entry,
  parse_metadata, read_metadata, expired, prune_expired,
}
use codexnet.Artifacts.Publishing.{
  write_publishes_or_keeps, Unchanged, Published, IsLate, Extends, IsAccepted,
}
use codexnet.Artifacts.Retention.Pruning.{prune_expired_lem, PrunedTo}
use codexnet.Artifacts.Retention.Limits.{long_name_blocks_retention, write_then_read}
use codexnet.Prelude.Text.{Text, codes}
use codexnet.Prelude.Result.{ok, err}

-- A day after the first moment, as its number.
abbrev number_of : Text → Option ℕ
number_of [] = none
number_of (c ∷ cs) = some c

abbrev described : Text → ArtifactMetadata
described name = record {
  schema_version = 1;
  filename = name;
  category = codes "logs";
  media_type = codes "text/plain";
  size_bytes = 2;
  sha256 = [];
  created_at = 1 ∷ [];
  expires_at = 4 ∷ [];
}

-- Metadata whose bytes are the name: the other fields are the same in all examples.
abbrev codec : Codec
codec = record {
  dumps = λ m. m.filename;
  loads = λ raw. some (described raw);
  sha256_hex = λ bytes. [];
  isoformat = λ time. time ∷ [];
  fromisoformat = number_of;
}

abbrev store : ArtifactStore
store = record {
  max_bytes = 10;
  root_opens = true;
  has_space = λ bytes. true;
  refuses = λ name. false;
}

abbrev no_faults : Faults
no_faults = record {
  metadata_fault = no_fault;
  payload_fault = no_fault;
  cleanup_fails = false;
  close_fails = false;
}

abbrev disk_full : Faults
disk_full = record {
  metadata_fault = no_fault;
  payload_fault = before_link;
  cleanup_fails = false;
  close_fails = false;
}

abbrev short_name : Text
short_name = codes "run.log"

-- 87 characters
abbrev long_name : Text
long_name =
    codes "aaaaaaaaaaaaaaaaaaaaaaaaaaaaaaaaaaaaaaaaaaaaaaaaaaaaaaaaaaaaaaaaaaaaaaaaaaaaaaaaaaaaaaa"

abbrev payload : List ℕ
payload = 104 ∷ 105 ∷ []

-- What the runs below compute with.
program : Unit {0}
unfolding is_alphanumeric is_name_char is_safe_name is_category_char is_safe_category
    validate_filename has_metadata_suffix publish prepare write parse_metadata read_entry
    read_metadata read_all past metadata_names expired check_regular prune_item prune_items
    prune_expired list_beq list_lt sort_by insert_by lookup put remove is_key
program = tt

abbrev kept : Directory
kept = (write codec store no_faults short_name payload (codes "logs") 3 (codes "text/plain") 1 []).0

stored :
    (write codec store no_faults short_name payload (codes "logs") 3 (codes "text/plain") 1 []).1
    ≡ ok (described short_name)
unfolding program
stored = refl

write_publishes_or_keeps_example :
    let run =
      write codec store disk_full short_name payload (codes "logs") 3 (codes "text/plain") 1 [] in
    ((m : ArtifactMetadata) × (run.1 ≡ ok m)
      × IsAccepted codec store short_name payload 4 m
      × Published codec store [] payload m run.0)
    ⊎ ((e : ArtifactError) × (run.1 ≡ err e)
        × (Unchanged codec store [] run.0
            ⊎ (IsLate codec store disk_full × Extends codec store [] short_name run.0)))
write_publishes_or_keeps_example =
    write_publishes_or_keeps codec store disk_full short_name payload (codes "logs") 3
      (codes "text/plain") 1 []

write_then_read_example :
    read_metadata codec store kept (metadata_name short_name) ≡ ok (described short_name)
write_then_read_example =
    write_then_read codec store no_faults short_name payload (codes "logs") 3 (codes "text/plain") 1
      [] (described short_name) stored refl (λ time. refl) (omega arith) (omega arith)

stored_long :
    (write codec store no_faults long_name payload (codes "logs") 3 (codes "text/plain") 1 []).1
    ≡ ok (described long_name)
unfolding program
stored_long = refl

long_name_blocks_retention_example :
    (e : ArtifactError) × (expired codec store
        (write codec store no_faults long_name payload (codes "logs") 3 (codes "text/plain") 1 []).0
        9
      ≡ err e)
long_name_blocks_retention_example =
    long_name_blocks_retention codec store no_faults long_name payload (codes "logs") 3
      (codes "text/plain") 1 [] (described long_name) stored_long (omega arith) 9

prune_expired_lem_example :
    let run = prune_expired codec store 4 false kept in
    ((e : ArtifactError) × (expired codec store kept 4 ≡ err e) × (run ≡ (kept, err e)))
    ⊎ ((found : List ArtifactMetadata) × (expired codec store kept 4 ≡ ok found)
        × (((false ≡ true) × (run ≡ (kept, ok found)))
            ⊎ ((false ≡ false) × PrunedTo store.refuses found found kept run)))
prune_expired_lem_example = prune_expired_lem codec store 4 false kept

pruned : (prune_expired codec store 4 false kept).0 ≡ []
unfolding program
pruned = refl
