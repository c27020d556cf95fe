-- ===== src/Artifacts/Retention/Limits.antt =====
-- A written artifact can be read again by the retention if its name has at most 86 characters; a
-- longer one stops the retention of the whole store.
use codexnet.Artifacts.{
  ◌>>=◌, ltb, list_beq, max_metadata_bytes, sort_by, if◌then◌else◌, length, ℕ, List, Text, lookup,
  ArtifactError, ArtifactMetadata, ArtifactStore, Codec, Directory, Faults, Entry, regular_file,
  metadata_name, write, is_safe_name, validate_filename, has_metadata_suffix, unsafe_name,
  unsafe_root,
}
use codexnet.Prelude.Result.{◌>>=◌, ok, err, Result-cases, ok-injective}
use codexnet.Prelude.{
  ltb, ◌+◌, ◌≤◌, Bool-cases, ◌∙◌, ap, refl, sym, arith, if◌then◌else◌, length, ℕ, ◌≡◌, List, inl,
  inr, true, false, [], ◌∷◌, some, ◌<◌,
}
use codexnet.Prelude.Keys.{list_beq, list_beq_iff, nat_eq, list_eq}
use codexnet.Artifacts.Retention.{
  parse_metadata, read_entry, read_metadata, read_all, expired, metadata_names,
}
use codexnet.Artifacts.Publishing.{longer, IsAccepted, Published, write_publishes_or_keeps}
use codexnet.Prelude.Order.{sort_by, nat_order, list_order}
use codexnet.Prelude.Sorting.{Among-sort_by, Among}
use mathlib.Core.Path.{subst}
use codexnet.OrderedDict.{lookup}
use codexnet.Prelude.Text.{Text}
use codexnet.Artifacts.Retention.Names.{metadata_name_safe, metadata_name-has_suffix}

name_listed :
    (x : Text) (entry : Entry) (files : Directory)
    → lookup x files ≡ some entry
    → has_metadata_suffix x ≡ true
    → Among x (metadata_names files)
unfolding lookup metadata_names
name_listed x entry [] h k = ground arith
name_listed x entry ((n, other) ∷ files) h k =
    ground (arith, name_listed x entry files, list_beq_iff n x)

module _ (k : Codec) (store : ArtifactStore) where
  one_fails_all :
      (files : Directory) (names : List Text) (x : Text) (e : ArtifactError)
      → Among x names
      → read_metadata k store files x ≡ err e
      → (e' : ArtifactError) × (read_all k store files names ≡ err e')
  unfolding read_all
  one_fails_all files [] x e h bad = absurd h
  one_fails_all files (n ∷ names) x e h bad = elim (Result-cases (read_metadata k store files n)) [
    | inr (e', failed) ↦ (e', rw (failed, read_all) refl)
    | inl (m, good) ↦ elim h [
      | inl here ↦ absurd (ground (arith, ap (read_metadata k store files) here))
      | inr there ↦
          let (e', failed) = one_fails_all files names x e there bad in
          (e', rw (good, failed, read_all) refl)
    ]
  ]

  expired_fails :
      (files : Directory) (cutoff : ℕ) (e : ArtifactError)
      → read_all k store files (sort_by (λ n. n) (metadata_names files)) ≡ err e
      → (e' : ArtifactError) × (expired k store files cutoff ≡ err e')
  unfolding expired
  expired_fails files cutoff e h = elim (Bool-cases store.root_opens) [
    | inr shut ↦ (unsafe_root, ground arith)
    | inl opens ↦ (e, ground arith)
  ]

  unsafe_fails :
      (files : Directory) (x : Text)
      → is_safe_name x ≡ false
      → read_metadata k store files x ≡ err unsafe_name
  unfolding read_metadata validate_filename
  unsafe_fails files x h = rw (h, if◌then◌else◌) refl

  parses_back :
      (m : ArtifactMetadata) (x : Text) (time : ℕ)
      → k.loads (k.dumps m) ≡ some m
      → k.fromisoformat m.expires_at ≡ some time
      → is_safe_name m.filename ≡ true
      → list_beq x (metadata_name m.filename) ≡ true
      → parse_metadata k store x (k.dumps m) ≡ ok m
  unfolding parse_metadata
  parses_back m x time loaded timed safe named =
      rw (loaded, safe, timed, named, parse_metadata) refl

  read_regular :
      (files : Directory) (x : Text) (raw : List ℕ) (m : ArtifactMetadata)
      → is_safe_name x ≡ true
      → lookup x files ≡ some (regular_file raw)
      → length raw ≤ max_metadata_bytes
      → parse_metadata k store x raw ≡ ok m
      → read_metadata k store files x ≡ ok m
  unfolding read_metadata validate_filename read_entry
  read_regular files x raw m safe there small parsed =
      let fits : ltb max_metadata_bytes (length raw) ≡ false = ground arith in
      rw (safe, if◌then◌else◌, ◌>>=◌, there, fits) parsed

  module _ (faults : Faults) (name : Text) (payload : List ℕ) (category' : Text) (retention : ℕ)
      (media_type' : Text) (created : ℕ) (files : Directory) (m : ArtifactMetadata)
      (done : (write k store faults name payload category' retention media_type' created files).1
        ≡ ok m) where
    abbrev after : Directory
    after = (write k store faults name payload category' retention media_type' created files).0

    written :
        IsAccepted k store name payload (created + retention) m
        × Published k store files payload m after
    written =
        elim (write_publishes_or_keeps k store faults name payload category' retention media_type'
          created files) [
            | inr (e, failed, kept) ↦ absurd (ground (arith, sym done ∙ failed))
            | inl (m', done', accepted, published) ↦
                let same = ok-injective m' m (sym done' ∙ done) in
                (
                  subst (IsAccepted k store name payload (created + retention)) same accepted,
                  subst (λ u. Published k store files payload u after) same published,
                )
          ]

    metadata_there : lookup (metadata_name name) after ≡ some (regular_file (k.dumps m))
    metadata_there =
        let (accepted, published) = written in
        subst (λ n. lookup (metadata_name n) after ≡ some (regular_file (k.dumps m))) accepted.0
          (ground (
            arith,
            published.2 (metadata_name m.filename),
            list_beq_iff (metadata_name m.filename) (metadata_name m.filename),
            list_beq_iff m.filename (metadata_name m.filename),
            longer m.filename,
          ))

    -- An artifact whose name has more than 86 characters is written without complaint, but from
    -- then on the store lists no expired artifact: whatever the time, `expired` raises, because the
    -- name of the metadata is longer than a name may be.
    pub long_name_blocks_retention :
        86 < length name
        → (cutoff : ℕ) → (e : ArtifactError) × (expired k store after cutoff ≡ err e)
    long_name_blocks_retention long cutoff =
        let unsafe : is_safe_name (metadata_name name) ≡ false =
          ground (arith, metadata_name_safe name written.0.1) in
        let listed =
          name_listed (metadata_name name) (regular_file (k.dumps m)) after metadata_there
            (metadata_name-has_suffix name) in
        let among = (Among-sort_by (λ n. n) (metadata_name name) (metadata_names after)).1 listed in
        let (e, failed) =
          one_fails_all after (sort_by (λ n. n) (metadata_names after)) (metadata_name name)
            unsafe_name among (unsafe_fails after (metadata_name name) unsafe) in
        expired_fails after cutoff e failed

    -- An artifact whose name has at most 86 characters is read back: where the metadata fits the
    -- limit of a metadata file, `_read_metadata` gives what the write has returned.
    pub write_then_read :
        k.loads (k.dumps m) ≡ some m
        → ((time : ℕ) → k.fromisoformat (k.isoformat time) ≡ some time)
        → length name ≤ 86
        → length (k.dumps m) ≤ max_metadata_bytes
        → read_metadata k store after (metadata_name name) ≡ ok m
    write_then_read loads_back reads_time short small =
        let (accepted, published) = written in
        let safe : is_safe_name (metadata_name name) ≡ true =
          ground (arith, metadata_name_safe name accepted.1) in
        let parsed : parse_metadata k store (metadata_name name) (k.dumps m) ≡ ok m =
          parses_back m (metadata_name name) (created + retention) loads_back
            (rw accepted.5 (reads_time (created + retention))) (rw accepted.0 accepted.1)
            (rw accepted.0 ((list_beq_iff (metadata_name name) (metadata_name name)).1 refl)) in
        read_regular after (metadata_name name) (k.dumps m) m safe metadata_there small parsed
