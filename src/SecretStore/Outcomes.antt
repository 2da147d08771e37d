-- ===== src/SecretStore/Outcomes.antt =====
-- What holds after a run from a given state of the entries, whatever the fates of its calls.
use friendzone.Prelude.{◌≡◌, refl, sym, subst, List, [], ◌∷◌, Bool, true, false}
use friendzone.SecretStore.{
  Disk, Fate, works, fails, fails_late, dies, World, VaultError, Run, ok, err, died,
}
use friendzone.SecretStore.Entries.{M, pure, raise, ◌>>=◌, ◌>>◌, bail_if, call, after}

abbrev pub Ends : {A : Type 0} → (A → Disk → Type 0) → (Disk → Type 0) → Run A × World → Type 0
Ends P I (ok a, w) = P a w.disk
Ends P I (err e, w) = I w.disk
Ends P I (died, w) = I w.disk

-- From `d`, a run of `m` that returns ends with `P`, and one that fails or dies ends with `I`.
pub record From {A : Type 0} (d : Disk) (m : M A) (P : A → Disk → Type 0) (I : Disk → Type 0)
    : Type 0 where
  pub at : (fs : List Fate) → Ends P I (m (record { disk = d; fates = fs }))

module _ {A : Type 0} {d : Disk} {I : Disk → Type 0} where
  pub From-pure : (a : A) (P : A → Disk → Type 0) → P a d → From d (pure a) P I
  From-pure a P h = record { at = λ fs. h }

  pub From-raise : (e : VaultError) (P : A → Disk → Type 0) → I d → From d (raise e) P I
  From-raise e P h = record { at = λ fs. h }

  pub From-call :
      (value : Disk → A) (effect : Disk → Disk) (P : A → Disk → Type 0)
      → P (value d) (effect d)
      → I d
      → I (effect d)
      → From d (call value effect) P I
  unfolding call
  From-call value effect P p i j = record { at = go }
    where
      go : (fs : List Fate) → Ends P I (call value effect (record { disk = d; fates = fs }))
      go [] = p
      go (works ∷ fs) = p
      go (fails ∷ fs) = i
      go (fails_late ∷ fs) = j
      go (dies ∷ fs) = i

module _ {A B : Type 0} {d : Disk} {I : Disk → Type 0} where
  pub From-bind :
      (m : M A) (f : A → M B) (Q : A → Disk → Type 0) (P : B → Disk → Type 0)
      → From d m Q I
      → ((a : A) (d' : Disk) → Q a d' → From d' (f a) P I)
      → From d (m >>= f) P I
  unfolding ◌>>=◌
  From-bind m f Q P h k = record { at = λ fs. go (m (record { disk = d; fates = fs })) (h.at fs) }
    where
      go : (r : Run A × World) → Ends Q I r → Ends P I (after f r)
      go (ok a, w) q = (k a w.disk q).at w.fates
      go (err e, w) q = q
      go (died, w) q = q

module _ {A : Type 0} {d : Disk} where
  pub From-weaken :
      (m : M A) (P P' : A → Disk → Type 0) (I I' : Disk → Type 0)
      → ((a : A) (d' : Disk) → P a d' → P' a d')
      → ((d' : Disk) → I d' → I' d')
      → From d m P I
      → From d m P' I'
  From-weaken m P P' I I' p i h = record {
    at = λ fs. go (m (record { disk = d; fates = fs })) (h.at fs);
  }
    where
      go : (r : Run A × World) → Ends P I r → Ends P' I' r
      go (ok a, w) q = p a w.disk q
      go (err e, w) q = i w.disk q
      go (died, w) q = i w.disk q

-- A read changes nothing, and where it returns, this holds of what it returns.
abbrev pub Reads : {A : Type 0} (d : Disk) (P : A → Type 0) → A → Disk → Type 0
Reads d P a d' = (d' ≡ d) × P a

module _ {A B : Type 0} {d : Disk} {I : Disk → Type 0} where
  pub From-read :
      (m : M A) (f : A → M B) (Q : A → Type 0) (P : B → Disk → Type 0)
      → I d
      → From d m (Reads d Q) (λ d'. d' ≡ d)
      → ((a : A) → Q a → From d (f a) P I)
      → From d (m >>= f) P I
  From-read m f Q P i h k =
      From-bind m f (Reads d Q) P
        (From-weaken m (Reads d Q) (Reads d Q) (λ d'. d' ≡ d) I (λ a d' q. q)
          (λ d' e. subst I (sym e) i) h)
        (λ a d' q. subst (λ c. From c (f a) P I) (sym q.0) (k a q.1))

module _ {B : Type 0} {d : Disk} {I : Disk → Type 0} where
  pub From-then :
      (m : M (Unit {0})) (k : M B) (Q : Disk → Type 0) (P : B → Disk → Type 0)
      → From d m (λ _ d'. Q d') I
      → ((d' : Disk) → Q d' → From d' k P I)
      → From d (m >> k) P I
  unfolding ◌>>◌
  From-then m k Q P h f = From-bind m (λ _. k) (λ _ d'. Q d') P h (λ _ d' q. f d' q)

  pub From-check :
      (b : Bool) (e : VaultError) (k : M B) (P : B → Disk → Type 0)
      → I d
      → (b ≡ false → From d k P I)
      → From d (bail_if b e >> k) P I
  unfolding ◌>>◌ ◌>>=◌
  From-check true e k P i h = record { at = λ fs. i }
  From-check false e k P i h = record { at = λ fs. (h refl).at fs }

pub From-bail_if :
    {d : Disk} {I : Disk → Type 0} (b : Bool) (e : VaultError) (P : Unit {0} → Disk → Type 0)
    → I d
    → (b ≡ false → P tt d)
    → From d (bail_if b e) P I
From-bail_if true e P i p = record { at = λ fs. i }
From-bail_if false e P i p = record { at = λ fs. p refl }
