-- ===== src/Storage/Pruner/Planning.antt =====
-- What `plan` finds, and that applying a plan at once deletes exactly the old backups.
use codexnet.Storage.Pruner.Applying.{
  apply_passing, IsOwned, AllOwned, DistinctNames, any-count_if, Stopped, Gone,
}
use codexnet.Prelude.Sorting.{count_if-sort_by, Among, Among-sort_by, count_if, Among-append}
use codexnet.Prelude.{
  ◌∙◌, ap, sym, Option-cases, refl, ◌⊎◌, arith, ◌≡◌, ltb, List, if◌then◌else◌, ◌&&◌, Bool, Option,
  ℕ, inl, inr, true, [], ◌∷◌, none, some, ◌++◌, append-nil, false,
}
use codexnet.Prelude.Order.{sort_by, nat_order, list_order}
use mathlib.Core.Path.{subst}
use codexnet.Prelude.Keys.{list_beq_iff, ◌==◌, nat_eq, list_eq}
use codexnet.OrderedDict.{Distinct, OrderedDict, lookup}
use codexnet.Prelude.Text.{Text}
use codexnet.Storage.Pruner.{
  Text, lookup, Clock, FileInfo, OwnedFile, BackupRoot, is_backup_name, is_regular, scan, plan,
  owned, check_items, check_item, apply, open_root, PruneError,
}
use codexnet.Prelude.Result.{Result, ok, ◌>>◌, Result-cases}

module _ (clock : Clock) (before : ℕ) where
  -- A backup that was modified before the time.
  abbrev pub is_due : Text → FileInfo → Bool
  is_due x info = is_backup_name clock x && ltb (clock.microseconds info.modified_ns) before

  abbrev due_count : Text → Option FileInfo → ℕ
  due_count x none = 0
  due_count x (some info) = if is_due x info then 1 else 0

  scan_counts :
      (entries : OrderedDict Text FileInfo) (files : List OwnedFile)
      → Distinct entries
      → scan clock before entries ≡ ok files
      → (x : Text) → count_if (λ item. item.name == x) files ≡ due_count x (lookup x entries)
  unfolding scan lookup
  scan_counts [] files distinct h x = ground arith
  scan_counts ((n, info) ∷ entries) files distinct h x =
      elim (Result-cases (scan clock before entries)) [
        | inr (e, bad) ↦ absurd (ground arith)
        | inl (rest, good) ↦
            let tail = scan_counts entries rest distinct.1 good x in
            ground (arith, list_beq_iff n x)
      ]

  scan-inv :
      (n : Text) (info : FileInfo) (entries : OrderedDict Text FileInfo)
      (files rest : List OwnedFile)
      → scan clock before ((n, info) ∷ entries) ≡ ok files
      → scan clock before entries ≡ ok rest
      → (files ≡ rest)
        ⊎ ((files ≡ owned n info ∷ rest)
            × (is_backup_name clock n ≡ true)
            × (is_regular info.file_type ≡ true))
  unfolding scan
  scan-inv n info entries files rest h good = ground arith

  IsOwned-here :
      (n : Text) (info : FileInfo) (entries : OrderedDict Text FileInfo)
      → is_backup_name clock n ≡ true
      → is_regular info.file_type ≡ true
      → IsOwned clock ((n, info) ∷ entries) (owned n info)
  unfolding lookup
  IsOwned-here n info entries proper file =
      (info, ground (arith, list_beq_iff n n), proper, file, ground arith)

  IsOwned-behind :
      (n : Text) (info : FileInfo) (entries : OrderedDict Text FileInfo) (item : OwnedFile)
      → lookup n entries ≡ none
      → IsOwned clock entries item
      → IsOwned clock ((n, info) ∷ entries) item
  unfolding lookup
  IsOwned-behind n info entries item fresh (found, hit, proper, file, same) =
      (found, ground (arith, list_beq_iff n item.name), proper, file, same)

  scan-AllOwned :
      (entries : OrderedDict Text FileInfo) (files : List OwnedFile)
      → Distinct entries
      → scan clock before entries ≡ ok files
      → AllOwned clock entries files
  unfolding scan
  scan-AllOwned [] files distinct h item among = absurd (ground arith)
  scan-AllOwned ((n, info) ∷ entries) files distinct h item among =
      elim (Result-cases (scan clock before entries)) [
        | inr (e, bad) ↦ absurd (ground arith)
        | inl (rest, good) ↦
            let tail = scan-AllOwned entries rest distinct.1 good item in
            elim (scan-inv n info entries files rest h good) [
              | inl old ↦
                  IsOwned-behind n info entries item distinct.0
                    (tail (subst (Among item) old among))
              | inr (new, proper, file) ↦ elim (subst (Among item) new among) [
                | inl here ↦
                    subst (IsOwned clock ((n, info) ∷ entries)) (sym here)
                      (IsOwned-here n info entries proper file)
                | inr there ↦ IsOwned-behind n info entries item distinct.0 (tail there)
              ]
            ]
      ]

  -- What `plan` finds: each old backup once, and each as it is.
  pub plan_lem :
      (root : BackupRoot) (items : List OwnedFile)
      → Distinct root.entries
      → plan clock root before ≡ ok items
      → (open_root root ≡ ok tt)
        × AllOwned clock root.entries items
        × ((x : Text)
            → count_if (λ item. item.name == x) items ≡ due_count x (lookup x root.entries))
  unfolding plan
  plan_lem root items distinct h = elim (Result-cases (open_root root)) [
    | inr (e, bad) ↦ absurd (ground arith)
    | inl (u, opened) ↦ elim (Result-cases (scan clock before root.entries)) [
      | inr (e, bad) ↦ absurd (ground arith)
      | inl (files, found) ↦
          let sorted : sort_by (λ item. item.name) files ≡ items = ground arith in
          (
            opened,
            λ item among. scan-AllOwned root.entries files distinct found item (
                (Among-sort_by (λ j. j.name) item files).0 (subst (Among item) (sym sorted) among)),
            λ x.
                ap (count_if (λ item. item.name == x)) (sym sorted)
                ∙ count_if-sort_by (λ j. j.name) (λ item. item.name == x) files
                ∙ scan_counts root.entries files distinct found x,
          )
    ]
  ]

  AllOwned-check_items :
      (entries : OrderedDict Text FileInfo) (items : List OwnedFile)
      → AllOwned clock entries items
      → check_items clock entries items ≡ ok tt
  unfolding check_items
  AllOwned-check_items entries [] h = refl
  AllOwned-check_items entries (item ∷ items) h =
      let (info, hit, proper, file, same) = h item (inl refl) in
      let rest = AllOwned-check_items entries items (λ j among. h j (inr among)) in
      let first : check_item clock entries item ≡ ok tt =
        unfold check_item in rw (proper, hit, file, same) refl in
      rw (first, check_items) rest

  abbrev pub kept_unless_due : Text → Option FileInfo → Option FileInfo
  kept_unless_due x none = none
  kept_unless_due x (some info) = if is_due x info then none else some info

  -- When no file that is left is refused, none is left.
  all_deleted :
      (refuses : Text → Bool) (items removed left : List OwnedFile)
      (outcome : Result PruneError (List OwnedFile))
      → items ≡ removed ++ left
      → ((item : OwnedFile) → Among item items → refuses item.name ≡ false)
      → Stopped refuses items left outcome
      → (outcome ≡ ok items) × (removed ≡ items)
  all_deleted refuses items removed left outcome split free (inl (done, none_left)) =
      (done, sym (split ∙ ap (λ l. removed ++ l) none_left ∙ append-nil removed))
  all_deleted refuses items removed left outcome split free (inr (item, rest, at, refused, e)) =
      let there : Among item (removed ++ left) =
        (Among-append item removed left).1 (inr (subst (Among item) (sym at) (inl refl))) in
      absurd (ground (arith, free item (subst (Among item) (sym split) there)))

  -- A plan that is applied at once, none of whose files the operating system refuses to delete, is
  -- carried out, and then exactly the backups that were modified before the time are gone: every
  -- other entry of the root is as it was.
  pub plan_then_apply :
      (refuses : Text → Bool) (root : BackupRoot) (items : List OwnedFile)
      → Distinct root.entries
      → plan clock root before ≡ ok items
      → ((item : OwnedFile) → Among item items → refuses item.name ≡ false)
      → ((apply clock refuses root items).1 ≡ ok items)
        × ((x : Text)
            → lookup x (apply clock refuses root items).0.entries
              ≡ kept_unless_due x (lookup x root.entries))
  unfolding apply
  plan_then_apply refuses root items distinct h free =
      let (opened, all, counts) = plan_lem root items distinct h in
      let checked = AllOwned-check_items root.entries items all in
      let once : DistinctNames items = λ x. elim (Option-cases (lookup x root.entries)) [
        | inl gone ↦ ground (arith, counts x)
        | inr (info, there) ↦ ground (arith, counts x)
      ] in
      let passes : (open_root root >> check_items clock root.entries items) ≡ ok tt =
        rw (opened, checked) refl in
      let (owned_all, same, (removed, rest, split, gone, how)) =
        apply_passing clock refuses root items once passes in
      let (done, whole) =
        all_deleted refuses items removed rest (apply clock refuses root items).1 split free how in
      let left : Gone root.entries items (apply clock refuses root items).0.entries =
        subst (λ l. Gone root.entries l (apply clock refuses root items).0.entries) whole gone in
      (
        done,
        λ x. elim (Option-cases (lookup x root.entries)) [
          | inl none_there ↦ ground (arith, left x, counts x, any-count_if (λ j. j.name == x) items)
          | inr (info, there) ↦
              ground (arith, left x, counts x, any-count_if (λ j. j.name == x) items)
        ],
      )
