-- ===== src/Correlation/Devices/Outcome.antt =====
-- When `correlate` succeeds and what it raises otherwise.
use codexnet.OrderedDict.{lookup, put, is_key, OrderedDict}
use codexnet.Prelude.{
  refl, Bool-cases, ◌⊎◌, arith, if◌then◌else◌, ◌+◌, ◌≤◌, ℕ, ◌≡◌, List, inl, inr, false, [], ◌∷◌,
}
use codexnet.Prelude.Sorting.{Among-sort_by, count_if-sort_by, count_if, Among, Among-map}
use codexnet.OrderedDict.Lookup.{is_key-put}
use codexnet.Prelude.Keys.{list_beq_iff, ◌==◌, nat_eq, list_eq}
use codexnet.Correlation.Devices.{OrderedDict, ℕ, List, Text, correlate}
use codexnet.Prelude.Text.{Text}
use codexnet.Prelude.Order.{nat_order, list_order}
use codexnet.Prelude.Result.{ok, err}
use codexnet.Correlation.Identity.{Platform, duplicate_id, not_encodable, is_encodable}
use codexnet.Correlation.Devices.Building.{IsSeed, Unencodable}
use codexnet.Correlation.Merge.Loading.{IsLoaded, load-IsLoaded, empty-Identity}
use mathlib.Core.Path.{subst}
use codexnet.Correlation.Evidence.{DeviceObservation, IdentityEvidence, CorrelationResult}
use codexnet.Correlation.Merge.{Known, load, all_identifiers}
use codexnet.Correlation.Devices.Runs.{sorted_observations, run_lem}

-- How many observations have this ID.
abbrev pub uses_of_id : Text → List DeviceObservation → ℕ
uses_of_id id os = count_if (λ o. o.observation_id == id) os

abbrev as_key : Text → OrderedDict Text Text → ℕ
as_key id d = if is_key id d then 1 else 0

module _ (p : Platform) where
  -- The hardware addresses of the interfaces make identity evidence.
  abbrev pub AllNamed : List DeviceObservation → Type 0
  AllNamed os =
      (o : DeviceObservation)
      → Among o os
      → (items : List IdentityEvidence) × (all_identifiers p o ≡ ok items)

  abbrev LoadOutcome : List DeviceObservation → OrderedDict Text Text → Type 0
  LoadOutcome os start =
      ((final : OrderedDict Text Text) × (known : List Known) × (load p os start
          ≡ ok (final, known))
        × ((id : Text) → uses_of_id id os + as_key id start ≤ 1))
      ⊎ ((id : Text) × (load p os start ≡ err (duplicate_id id))
          × (2 ≤ uses_of_id id os + as_key id start))

  load_next :
      (o : DeviceObservation) (os : List DeviceObservation) (start : OrderedDict Text Text)
      (items : List IdentityEvidence)
      → is_key o.observation_id start ≡ false
      → all_identifiers p o ≡ ok items
      → LoadOutcome os (put o.observation_id o.observation_id start)
      → LoadOutcome (o ∷ os) start
  unfolding load
  load_next o os start items fresh all (inl (final, known, done, once)) = inl (
    final,
    record { observation = o; items = items } ∷ known,
    rw (fresh, all, done, load) refl,
    λ id. ground (
      arith,
      once id,
      is_key-put o.observation_id id o.observation_id start,
      list_beq_iff o.observation_id id,
    ),
  )
  load_next o os start items fresh all (inr (id, failed, twice)) = inr (
    id,
    rw (fresh, all, failed, load) refl,
    ground (
      arith,
      twice,
      is_key-put o.observation_id id o.observation_id start,
      list_beq_iff o.observation_id id,
    ),
  )

  load_outcome :
      (os : List DeviceObservation) (start : OrderedDict Text Text)
      → AllNamed os
      → LoadOutcome os start
  unfolding load
  load_outcome [] start named = inl (start, [], refl, λ id. ground arith)
  load_outcome (o ∷ os) start named = elim (Bool-cases (is_key o.observation_id start)) [
    | inl taken ↦ inr (
      o.observation_id,
      rw (taken, load) refl,
      ground (arith, list_beq_iff o.observation_id o.observation_id),
    )
    | inr fresh ↦
        let (items, all) = named o (inl refl) in
        load_next o os start items fresh all (
          load_outcome os (put o.observation_id o.observation_id start)
            (λ other h. named other (inr h)))
  ]

  -- An observation gives a text without a UTF-8 form: the key of one of its stable identifiers, or
  -- its ID.
  abbrev pub HasUnencodable : List DeviceObservation → Type 0
  HasUnencodable os =
      (o : DeviceObservation) × (items : List IdentityEvidence) × Among o os
      × (all_identifiers p o ≡ ok items)
      × (seed : Text) × IsSeed p seed o.observation_id items
      × (is_encodable seed ≡ false)

  known-Unencodable :
      (os : List DeviceObservation) (final : OrderedDict Text Text) (known : List Known)
      → IsLoaded p (sorted_observations os) [] final known
      → Unencodable p known
      → HasUnencodable os
  known-Unencodable os final known loaded (k, among, seed, source, bad) =
      let there : Among k.observation (sorted_observations os) =
        subst (Among k.observation) loaded.observed
          ((Among-map (λ u. u.observation) k.observation known).1 (k, among, refl)) in
      (
        k.observation,
        k.items,
        (Among-sort_by (λ u. u.observation_id) k.observation os).0 there,
        loaded.identified k among,
        seed,
        source,
        bad,
      )

  -- Where every interface's hardware address makes valid evidence, `correlate` succeeds, and then
  -- no two observations have the same ID; or it raises the error of a duplicate ID, and then two
  -- observations have that ID; or it raises the `UnicodeEncodeError`, and then the key of a stable
  -- identifier or the ID of one of the observations has no UTF-8 form. Its loops end, and no other
  -- exception occurs.
  pub correlate_outcome :
      (observations : List DeviceObservation)
      → AllNamed observations
      → ((r : CorrelationResult) × (correlate p observations ≡ ok r)
          × ((id : Text) → uses_of_id id observations ≤ 1))
        ⊎ ((id : Text) × (correlate p observations ≡ err (duplicate_id id))
            × (2 ≤ uses_of_id id observations))
        ⊎ ((correlate p observations ≡ err not_encodable) × HasUnencodable observations)
  unfolding correlate
  correlate_outcome observations named =
      let sorted = sorted_observations observations in
      let same : (id : Text) → uses_of_id id sorted ≡ uses_of_id id observations =
        λ id. count_if-sort_by (λ o. o.observation_id) (λ o. o.observation_id == id) observations in
      let named' : AllNamed sorted =
        λ o h. named o ((Among-sort_by (λ u. u.observation_id) o observations).0 h) in
      elim (load_outcome sorted [] named') [
        | inl (final, known, done, once) ↦
            let loaded = load-IsLoaded p sorted [] final known empty-Identity done in
            elim (run_lem p observations final known done) [
              | inl (r, run, how) ↦ inl (r, run, λ id. ground (arith, once id, same id))
              | inr (failed, why) ↦
                  inr (inr (failed, known-Unencodable observations final known loaded why))
            ]
        | inr (id, failed, twice) ↦
            inr (inl (id, rw failed refl, unfold lookup is_key in ground (arith, twice, same id)))
      ]
