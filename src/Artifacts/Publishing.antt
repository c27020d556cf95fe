-- ===== src/Artifacts/Publishing.antt =====
-- `_write` publishes an artifact with its metadata, or overwrites nothing.
use codexnet.Artifacts.{
  Bool, PublishFault, no_fault, before_link, after_link, with_payload, closed, some, with_metadata,
  Faults, write, file_exists, write_failed, if◌then◌else◌, put, length, lookup, ℕ, List, list_beq,
  Text, is_key, ArtifactError, ArtifactMetadata, ArtifactStore, Codec, Directory, regular_file,
  metadata_name, metadata_suffix, publish, prepare, is_safe_name, validate_filename,
  has_metadata_suffix,
}
use codexnet.Prelude.{
  Bool, sym, some, refl, ◌+◌, ap, if◌then◌else◌, ◌≤◌, Bool-cases, length, ◌⊎◌, arith, length-append,
  ℕ, List, ◌≡◌, ◌≢◌, inl, inr, true, false, none,
}
use codexnet.OrderedDict.Lookup.{is_key-put, lookup-put, lookup-remove}
use codexnet.Prelude.Result.{Result, Result-cases, ok, err, raise_if-eq-ok}
use codexnet.Prelude.Keys.{◌==◌, list_beq_iff, list_beq, nat_eq, list_eq}
use codexnet.OrderedDict.{put, lookup, is_key}
use codexnet.Prelude.Text.{Text}

publish_cases :
    (fault : PublishFault) (name : Text) (payload : List ℕ) (files : Directory)
    → let run = publish fault name payload files in
      let written = put name (regular_file payload) files in
      ((e : ArtifactError) × (run ≡ (files, err e)))
      ⊎ ((is_key name files ≡ false) × (run ≡ (written, ok tt)))
      ⊎ ((fault ≡ after_link) × (is_key name files ≡ false) × (run ≡ (written, err write_failed)))
unfolding publish
publish_cases before_link name payload files = inl (write_failed, refl)
publish_cases no_fault name payload files = elim (Bool-cases (is_key name files)) [
  | inl taken ↦ inl (file_exists, rw (taken, if◌then◌else◌) refl)
  | inr free ↦ inr (inl (free, rw (free, if◌then◌else◌) refl))
]
publish_cases after_link name payload files = elim (Bool-cases (is_key name files)) [
  | inl taken ↦ inl (file_exists, rw (taken, if◌then◌else◌) refl)
  | inr free ↦ inr (inr (refl, free, rw (free, if◌then◌else◌) refl))
]

pub longer : (name : Text) → metadata_name name ≢ name
longer name same =
    let size = length-append name metadata_suffix in
    let long : length (metadata_name name) ≡ length name = ap length same in
    absurd (omega (arith, size, long))

pub metadata_name-ne : (name : Text) → list_beq (metadata_name name) name ≡ false
metadata_name-ne name = ground (arith, list_beq_iff (metadata_name name) name, longer name)

absent : (x : Text) (files : Directory) → is_key x files ≡ false → lookup x files ≡ none
unfolding is_key
absent x files h = ground arith

module _ (k : Codec) (store : ArtifactStore) where
  -- What the checks of a write that is carried out have found.
  abbrev pub IsAccepted : Text → List ℕ → ℕ → ArtifactMetadata → Type 0
  IsAccepted name payload expiry m =
      (m.filename ≡ name)
      × (is_safe_name name ≡ true)
      × (has_metadata_suffix name ≡ false)
      × (length payload ≤ store.max_bytes)
      × (store.has_space (length payload + length (k.dumps m)) ≡ true)
      × (m.expires_at ≡ k.isoformat expiry)

  pub prepare-IsAccepted :
      (name : Text) (payload : List ℕ) (category' : Text) (retention : ℕ) (media_type' : Text)
      (created : ℕ) (m : ArtifactMetadata)
      → prepare k store name payload category' retention media_type' created ≡ ok m
      → IsAccepted name payload (created + retention) m
  unfolding prepare validate_filename
  prepare-IsAccepted name payload category' retention media_type' created m h =
      elim (Bool-cases (is_safe_name name)) [
        | inr unsafe ↦ absurd (ground arith)
        | inl safe ↦
            let at = rw (safe, if◌then◌else◌) at h in
            let (plain, h1) = raise_if-eq-ok (has_metadata_suffix name) _ _ at in
            (ground arith, safe, plain, ground arith, ground arith, ground arith)
      ]

  -- The directory with the two files of an artifact added.
  abbrev pub Published : Directory → List ℕ → ArtifactMetadata → Directory → Type 0
  Published files payload m files' =
      (lookup m.filename files ≡ none)
      × (lookup (metadata_name m.filename) files ≡ none)
      × ((x : Text)
          → lookup x files' ≡ (
              if m.filename == x
              then some (regular_file payload)
              else if metadata_name m.filename == x
              then some (regular_file (k.dumps m))
              else lookup x files))

  abbrev pub Unchanged : Directory → Directory → Type 0
  Unchanged files files' = (x : Text) → lookup x files' ≡ lookup x files

  -- At most the artifact and its metadata are new, and no file is overwritten.
  abbrev pub Extends : Directory → Text → Directory → Type 0
  Extends files name files' =
      (x : Text)
      → (lookup x files' ≡ lookup x files)
        ⊎ ((lookup x files ≡ none) × ((x ≡ name) ⊎ (x ≡ metadata_name name)))

  -- A failure behind a link, or of what comes after it.
  abbrev pub IsLate : Faults → Type 0
  IsLate faults =
      (faults.metadata_fault ≡ after_link)
      ⊎ (faults.payload_fault ≡ after_link)
      ⊎ (faults.cleanup_fails ≡ true)
      ⊎ (faults.close_fails ≡ true)

  -- `late` is what must hold when more is left than was there.
  abbrev pub WriteOutcome :
      Type 0
      → Directory
      → List ℕ
      → ArtifactMetadata
      → Directory × Result ArtifactError ArtifactMetadata
      → Type 0
  WriteOutcome late files payload m run =
      ((run.1 ≡ ok m) × Published files payload m run.0)
      ⊎ ((e : ArtifactError) × (run.1 ≡ err e)
          × (Unchanged files run.0 ⊎ (late × Extends files m.filename run.0)))

  Published-Extends :
      (payload : List ℕ) (m : ArtifactMetadata) (files files' : Directory)
      → Published files payload m files'
      → Extends files m.filename files'
  Published-Extends payload m files files' (free, free', at) x = ground (
    arith,
    at x,
    free,
    free',
    list_beq_iff m.filename x,
    list_beq_iff (metadata_name m.filename) x,
  )

  closed-WriteOutcome :
      (late : Type 0) (close_fails : Bool) (payload : List ℕ) (m : ArtifactMetadata)
      (files : Directory) (run : Directory × Result ArtifactError ArtifactMetadata)
      → (close_fails ≡ true → late)
      → WriteOutcome late files payload m run
      → WriteOutcome late files payload m (closed close_fails run)
  closed-WriteOutcome late false payload m files run is_late h = h
  closed-WriteOutcome late true payload m files (left, outcome) is_late (inl (done, published)) =
      inr (write_failed, refl, inr (is_late refl, Published-Extends payload m files left published))
  closed-WriteOutcome late true payload m files (left, outcome) is_late (inr (e, failed, how)) =
      inr (write_failed, refl, how)

  -- The metadata is written: what the second call of `_publish` and the `except` block make of it.
  module _ (late : Type 0) (cleanup_fails : Bool) (payload : List ℕ) (m : ArtifactMetadata)
      (files : Directory) (on_cleanup : cleanup_fails ≡ true → late)
      (free : is_key (metadata_name m.filename) files ≡ false) where
    abbrev meta : Text
    meta = metadata_name m.filename

    abbrev described : Directory
    described = put meta (regular_file (k.dumps m)) files

    abbrev complete : Directory
    complete = put m.filename (regular_file payload) described

    lookup-described :
        (x : Text)
        → lookup x described
          ≡ (if meta == x then some (regular_file (k.dumps m)) else lookup x files)
    lookup-described x =
        ground (arith, lookup-put meta x (regular_file (k.dumps m)) files, list_beq_iff meta x)

    payload_refused :
        (e : ArtifactError)
        → WriteOutcome late files payload m (with_payload cleanup_fails m meta (described, err e))
    payload_refused e = elim (Bool-cases cleanup_fails) [
      | inr fine ↦ rw fine (
          inr (
            e,
            refl,
            inl (λ x. ground (
              arith,
              lookup-remove meta x described,
              lookup-described x,
              absent meta files free,
              list_beq_iff meta x,
            )),
          ))
      | inl bad ↦ rw bad (
          inr (
            write_failed,
            refl,
            inr (
              on_cleanup bad,
              λ x. ground (arith, lookup-described x, absent meta files free, list_beq_iff meta x),
            ),
          ))
    ]

    name_free : is_key m.filename described ≡ false → lookup m.filename files ≡ none
    name_free free2 =
        absent m.filename files
          (ground (arith, is_key-put meta m.filename (regular_file (k.dumps m)) files))

    complete-Published : is_key m.filename described ≡ false → Published files payload m complete
    complete-Published free2 = (
      name_free free2,
      absent meta files free,
      λ x.
          ground
            (arith, lookup-put m.filename x (regular_file payload) described, lookup-described x),
    )

    -- The artifact stays, and with it the metadata if that cannot be deleted.
    payload_left :
        late
        → is_key m.filename described ≡ false
        → WriteOutcome late files payload m
            (with_payload cleanup_fails m meta (complete, err write_failed))
    payload_left behind free2 = elim (Bool-cases cleanup_fails) [
      | inr fine ↦ rw fine (
          inr (
            write_failed,
            refl,
            inr (
              behind,
              λ x. ground (
                arith,
                lookup-remove meta x complete,
                lookup-put m.filename x (regular_file payload) described,
                lookup-described x,
                absent meta files free,
                name_free free2,
                list_beq_iff meta x,
                list_beq_iff m.filename x,
              ),
            ),
          ))
      | inl bad ↦ rw bad (
          inr (
            write_failed,
            refl,
            inr (behind, Published-Extends payload m files complete (complete-Published free2)),
          ))
    ]

    publish_payload :
        (fault : PublishFault)
        → (fault ≡ after_link → late)
        → WriteOutcome late files payload m
            (with_payload cleanup_fails m meta (publish fault m.filename payload described))
    publish_payload fault on_fault = elim (publish_cases fault m.filename payload described) [
      | inl (e, failed) ↦ rw failed (payload_refused e)
      | inr (inl (free2, done)) ↦ rw done (inl (refl, complete-Published free2))
      | inr (inr (behind, free2, failed)) ↦ rw failed (payload_left (on_fault behind) free2)
    ]

  publish_both :
      (faults : Faults) (payload : List ℕ) (m : ArtifactMetadata) (files : Directory)
      → WriteOutcome (IsLate faults) files payload m (
          with_metadata faults m payload
            (publish faults.metadata_fault (metadata_name m.filename) (k.dumps m) files))
  publish_both faults payload m files =
      let meta = metadata_name m.filename in
      elim (publish_cases faults.metadata_fault meta (k.dumps m) files) [
        | inl (e, failed) ↦ rw failed (inr (e, refl, inl (λ x. refl)))
        | inr (inl (free, done)) ↦ rw done (
            publish_payload (IsLate faults) faults.cleanup_fails payload m files
              (λ bad. inr (inr (inl bad))) free faults.payload_fault (λ behind. inr (inl behind)))
        | inr (inr (late, free, failed)) ↦ rw failed (
            inr (
              write_failed,
              refl,
              inr (
                inl late,
                λ x. ground (
                  arith,
                  lookup-put meta x (regular_file (k.dumps m)) files,
                  absent meta files free,
                  list_beq_iff meta x,
                ),
              ),
            ))
      ]

  -- A write either returns the metadata, and then the directory has gained exactly the artifact
  -- and its metadata under names that were free before, within the limit of bytes and with the
  -- space guard's consent, or it raises. After an exception the directory has the files that it
  -- had, unless a call failed behind a link: closing or removing a staging file, deleting the
  -- metadata again, or closing the directory. Then at most the artifact and its metadata are left,
  -- and even then no file that was there is overwritten.
  pub write_publishes_or_keeps :
      (faults : Faults) (name : Text) (payload : List ℕ) (category' : Text) (retention : ℕ)
      (media_type' : Text) (created : ℕ) (files : Directory)
      → let run = write k store faults name payload category' retention media_type' created files in
        ((m : ArtifactMetadata) × (run.1 ≡ ok m)
          × IsAccepted name payload (created + retention) m
          × Published files payload m run.0)
        ⊎ ((e : ArtifactError) × (run.1 ≡ err e)
            × (Unchanged files run.0 ⊎ (IsLate faults × Extends files name run.0)))
  unfolding write
  write_publishes_or_keeps faults name payload category' retention media_type' created files =
      elim (Result-cases (prepare k store name payload category' retention media_type' created)) [
        | inr (e, refused) ↦ rw (refused, write) (inr (e, refl, inl (λ x. refl)))
        | inl (m, good) ↦
            let accepted =
              prepare-IsAccepted name payload category' retention media_type' created m good in
            let at : m.filename ≡ name = accepted.0 in
            rw (good, write)
              (elim (closed-WriteOutcome (IsLate faults) faults.close_fails payload m files _
                (λ bad. inr (inr (inr bad))) (publish_both faults payload m files)) [
                  | inl (done, published) ↦ inl (m, done, accepted, published)
                  | inr (e, failed, inl kept) ↦ inr (e, failed, inl kept)
                  | inr (e, failed, inr (late, extends)) ↦
                      inr (e, failed, inr (late, rw (sym at) extends))
                ])
      ]
