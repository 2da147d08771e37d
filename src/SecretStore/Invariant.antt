-- ===== src/SecretStore/Invariant.antt =====
-- What the entries of the credential store hold, and what each operation may do to it.
use friendzone.Prelude.{
  ◌≡◌, refl, sym, ◌∙◌, subst, Option, none, some, List, true, false, ◌==◌, nat_eq, arith, any,
}
use friendzone.Github.{Uuid}
use friendzone.SecretStore.{Values, Disk, Generation, Manifest, Stored, malformed, parsed, Codec}
use friendzone.SecretStore.Entries.{read_manifest}
use friendzone.SecretStore.Vault.{
  is_aliased, has_bad_generation, empty_manifest, check_stored, manifest,
}
use friendzone.SecretStore.Outcomes.{
  From, From-pure, From-raise, From-call, From-read, From-check, Reads,
}
use friendzone.SecretStore.Reading.{HasValues}

-- A manifest that passes the checks.
pub record IsManifest (m : Manifest) : Type 0 where
  pub versioned : (m.version == 1) ≡ true
  pub bounded : has_bad_generation m ≡ false
  pub distinct : is_aliased m ≡ false

-- The entry of the manifest is this one; where there is no entry it is the empty one.
abbrev pub IsStored : Option Stored → Manifest → Type 0
IsStored none m = m ≡ empty_manifest
IsStored (some malformed) m = ⊥
IsStored (some (parsed n)) m = m ≡ n

-- The current generation, if there is one, has one of these IDs.
abbrev pub IsKnown : List Uuid → Option Generation → Type 0
IsKnown ids none = Unit
IsKnown ids (some g) = any (λ id. id == g.id) ids ≡ true

module _ (x : Codec) where
  -- The entries hold the values `v` under the manifest `m`, whose current ID is one of `ids`.
  pub record HoldsUnder (ids : List Uuid) (d : Disk) (m : Manifest) (v : Option Values)
      : Type 0 where
    pub valid : IsManifest m
    pub stored : IsStored d.manifest m
    pub known : IsKnown ids m.current
    pub values : HasValues x d m.current v

  pub record Holds (ids : List Uuid) (d : Disk) (v : Option Values) : Type 0 where
    pub manifest : Manifest
    pub under : HoldsUnder ids d manifest v

pub empty_manifest-IsManifest : IsManifest empty_manifest
unfolding has_bad_generation is_aliased
empty_manifest-IsManifest = record { versioned = refl; bounded = refl; distinct = refl }

check_stored-From :
    (d : Disk) (s : Option Stored)
    → From d (check_stored s) (Reads d (λ m. IsManifest m × IsStored s m)) (λ d'. d' ≡ d)
unfolding check_stored
check_stored-From d none = From-pure _ _ (refl, (empty_manifest-IsManifest, refl))
check_stored-From d (some malformed) = From-raise _ _ refl
check_stored-From d (some (parsed m)) = From-check _ _ _ _ refl (λ v. From-check _ _ _ _ refl (λ b.
    From-check _ _ _ _ refl (λ a.
      From-pure _ _
        (refl, (record { versioned = ground (arith, v); bounded = b; distinct = a }, refl)))))

pub manifest-From :
    (d : Disk)
    → From d manifest (Reads d (λ m. IsManifest m × IsStored d.manifest m)) (λ d'. d' ≡ d)
unfolding manifest read_manifest
manifest-From d =
    From-read read_manifest check_stored (λ s. d.manifest ≡ s) _ refl
      (From-call (λ e. e.manifest) (λ e. e) _ (refl, refl) refl refl)
      (λ s q.
        subst
          (λ t. From d (check_stored s) (Reads d (λ m. IsManifest m × IsStored t m)) (λ d'. d' ≡ d))
          (sym q) (check_stored-From d s))

pub IsStored-unique : (s : Option Stored) (m n : Manifest) → IsStored s m → IsStored s n → m ≡ n
IsStored-unique none m n p q = p ∙ sym q
IsStored-unique (some malformed) m n p q = absurd p
IsStored-unique (some (parsed k)) m n p q = p ∙ sym q
