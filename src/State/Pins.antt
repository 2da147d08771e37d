-- ===== src/State/Pins.antt =====
-- No two containers are pinned to one address, whatever the host and the guests do.
use friendzone.Prelude.{
  ◌≡◌, refl, ap, sym, subst, ◌∙◌, arith, inl, inr, String, Bool, true, false, not, ◌&&◌, Option,
  none, some, any, ◌==◌, string_eq, option_eq, nat_eq, str_eq_iff, if◌then◌else◌, Option-cases,
  Bool-cases, is_some,
}
use mathlib.Core.Option
use friendzone.Prelude.Map.{
  lookup, insert, map_values, lookup-insert, lookup-remove, lookup-of_any, lookup-map_values,
}
use friendzone.Prelude.Result.{Result, ok, err, ◌>>=◌, ◌>>◌, context}
use friendzone.Github.{IpAddr}
use friendzone.Policy.{ClineAccess}
use friendzone.State.{
  ContainerRecord, Containers, StateError, pinned_to_other, unknown_container, no_address_observed,
  Env, or_default,
}
use friendzone.State.Policy.{Killed, Update}
use friendzone.State.Registry.{
  release, release_address, add_update, pins_other, check_unique_pin, approval_pin, approve_update,
  pin_update, remove_update, access_update, kill_update,
}

-- Two names pinned to one address are one name.
unfoldable pub IsUniquelyPinned : Containers → Type 0
IsUniquelyPinned m =
    (a b : String) (r q : ContainerRecord) (ip : IpAddr)
    → lookup a m ≡ some r
    → lookup b m ≡ some q
    → r.pinned_ip ≡ some ip
    → q.pinned_ip ≡ some ip
    → a ≡ b

-- A pin that no other container has.
unfoldable pub IsFree : String → Option IpAddr → Containers → Type 0
IsFree name pin m =
    (b : String) (q : ContainerRecord) (ip : IpAddr)
    → pin ≡ some ip
    → lookup b m ≡ some q
    → q.pinned_ip ≡ some ip
    → b ≡ name

pub insert-IsUniquelyPinned :
    (name : String) (r : ContainerRecord) (m : Containers)
    → IsUniquelyPinned m
    → IsFree name r.pinned_ip m
    → IsUniquelyPinned (insert name r m)
unfolding IsUniquelyPinned IsFree
insert-IsUniquelyPinned name r m u f a b p q ip ea eb pa pb = ground (
  arith,
  lookup-insert name a r m,
  lookup-insert name b r m,
  str_eq_iff name a,
  str_eq_iff name b,
  f a p ip,
  f b q ip,
  u a b p q ip,
)

-- What a record of the map is pinned to is free for it.
pub own-IsFree :
    (name : String) (r : ContainerRecord) (m : Containers)
    → IsUniquelyPinned m
    → lookup name m ≡ some r
    → IsFree name r.pinned_ip m
unfolding IsUniquelyPinned IsFree
own-IsFree name r m u e b q ip p eb pb = u b name q r ip eb e pb p

pub or_default-IsFree :
    (env : Env) (name : String) (m : Containers)
    → IsUniquelyPinned m
    → IsFree name (or_default env name m).pinned_ip m
unfolding or_default
or_default-IsFree env name m u = elim (Option-cases (lookup name m)) [
  | inl n ↦ rw (n, or_default) (unfold IsFree in λ b q ip e. cc)
  | inr (r, e) ↦ rw (e, or_default) (own-IsFree name r m u e)
]

-- The check before a pin is set finds it free.
check_unique_pin-IsFree :
    (m : Containers) (name : String) (pin : Option IpAddr)
    → check_unique_pin m name pin ≡ ok tt
    → IsFree name pin m
unfolding check_unique_pin pins_other IsFree
check_unique_pin-IsFree m name none h b q ip p e pb = cc
check_unique_pin-IsFree m name (some i) h b q ip p e pb =
    elim (Bool-cases (any (pins_other name i) m)) [
      | inl t ↦
          let x : check_unique_pin m name (some i) ≡ err pinned_to_other =
            rw (t, check_unique_pin) refl in
          cc
      | inr n ↦
          let x : pins_other name i (b, q) ≡ false =
            lookup-of_any (pins_other name i) b m {v = q} n e in
          ground (arith, str_eq_iff b name, option_eq.beq_iff q.pinned_ip (some i))
    ]

release-keeps :
    (name b : String) (ip i : IpAddr) (r : ContainerRecord)
    → (release name ip b r).pinned_ip ≡ some i
    → (release name ip b r ≡ r) × (ip ≡ i → b ≡ name)
unfolding release
release-keeps name b ip i r p = elim (Bool-cases (not (b == name) && r.pinned_ip == some ip)) [
  | inl t ↦ let x : (release name ip b r).pinned_ip ≡ none = rw (t, release) refl in cc
  | inr f ↦
      let x : release name ip b r ≡ r = rw (f, release) refl in
      let y : r.pinned_ip ≡ some i = ap (λ z. z.pinned_ip) (sym x) ∙ p in
      (x, λ g. ground (arith, str_eq_iff b name, option_eq.beq_iff r.pinned_ip (some ip)))
]

-- A container that stays pinned after a release was pinned before it, and not to that address.
lookup-release_address :
    (name b : String) (ip i : IpAddr) (m : Containers) (q : ContainerRecord)
    → lookup b (release_address name (some ip) m) ≡ some q
    → q.pinned_ip ≡ some i
    → (lookup b m ≡ some q) × ((ip ≡ i) → b ≡ name)
unfolding release_address
lookup-release_address name b ip i m q e p = elim (Option-cases (lookup b m)) [
  | inl n ↦ ground (arith, lookup-map_values (release name ip) b m)
  | inr (r, h) ↦
      let x : some (release name ip b r) ≡ some q =
        sym (
          subst (λ o. lookup b (map_values (release name ip) m) ≡ Option.map (release name ip b) o)
            h (lookup-map_values (release name ip) b m))
        ∙ e in
      let y : release name ip b r ≡ q = ground arith in
      let (k, f) = release-keeps name b ip i r (ap (λ z. z.pinned_ip) y ∙ p) in
      (h ∙ ap some (sym k ∙ y), f)
]

release_address-IsUniquelyPinned :
    (name : String) (ip : Option IpAddr) (m : Containers)
    → IsUniquelyPinned m
    → IsUniquelyPinned (release_address name ip m)
unfolding release_address
release_address-IsUniquelyPinned name none m u = u
release_address-IsUniquelyPinned name (some ip) m u =
    unfold IsUniquelyPinned in
    λ a b r q i ea eb pa pb.
      u a b r q i (lookup-release_address name a ip i m r ea pa).0
        (lookup-release_address name b ip i m q eb pb).0 pa pb

-- The outcome of an update keeps the pins apart.
unfoldable pub IsKept : Result StateError (Containers × Killed) → Type 0
unfolding IsUniquelyPinned
IsKept r = (m : Containers) (killed : Killed) → r ≡ ok (m, killed) → IsUniquelyPinned m

pub ok-IsKept : (m : Containers) (killed : Killed) → IsUniquelyPinned m → IsKept (ok (m, killed))
unfolding IsKept IsUniquelyPinned
ok-IsKept m killed u n k e = subst IsUniquelyPinned {x = m} {y = n} (cc) u

pub err-IsKept : (e : StateError) → IsKept (err e)
unfolding IsKept
err-IsKept e n k h = cc

added-IsFree :
    (env : Env) (name : String) (ip : Option IpAddr) (m : Containers)
    → IsUniquelyPinned m
    → IsFree name
        (if is_some ip then ip else (or_default env name (release_address name ip m)).pinned_ip)
        (release_address name ip m)
unfolding release_address
added-IsFree env name none m u = or_default-IsFree env name m u
added-IsFree env name (some i) m u =
    unfold IsFree in λ b q j p eb pb. (lookup-release_address name b i j m q eb pb).1 cc

pub add_update-IsKept :
    (env : Env) (name : String) (ip : Option IpAddr) (m : Containers) (killed : Killed)
    → IsUniquelyPinned m
    → IsKept (add_update env name ip m killed)
unfolding add_update
add_update-IsKept env name ip m killed u = ok-IsKept _ killed (
    insert-IsUniquelyPinned name _ (release_address name ip m)
      (release_address-IsUniquelyPinned name ip m u) (added-IsFree env name ip m u))

abbrev pin_then : String → Option IpAddr → (ContainerRecord → ContainerRecord) → Update
pin_then name pin f m killed =
    check_unique_pin m name pin
    >> (context (lookup name m) unknown_container >>= λ r. ok (insert name (f r) m, killed))

-- A checked pin may be set.
set-IsKept :
    (name : String) (pin : Option IpAddr) (f : ContainerRecord → ContainerRecord) (m : Containers)
    (killed : Killed)
    → IsUniquelyPinned m
    → ((r : ContainerRecord)
        → lookup name m ≡ some r
        → IsFree name pin m
        → IsFree name (f r).pinned_ip m)
    → IsKept (pin_then name pin f m killed)
set-IsKept name pin f m killed u h = go (check_unique_pin m name pin) refl
  where
    go :
        (o : Result StateError (Unit {0}))
        → check_unique_pin m name pin ≡ o
        → IsKept (
            o
            >> (context (lookup name m) unknown_container >>= λ r.
                ok (insert name (f r) m, killed)))
    go (err e) c = err-IsKept e
    go (ok _) c = elim (Option-cases (lookup name m)) [
      | inl n ↦ rw n (err-IsKept unknown_container)
      | inr (r, e) ↦ rw e (
          ok-IsKept (insert name (f r) m) killed
            (insert-IsUniquelyPinned name (f r) m u (h r e (check_unique_pin-IsFree m name pin c))))
    ]

pub approve_update-IsKept :
    (name : String) (pin : Bool) (m : Containers) (killed : Killed)
    → IsUniquelyPinned m
    → IsKept (approve_update name pin m killed)
unfolding approve_update
approve_update-IsKept name false m killed u =
    set-IsKept name none (λ r. record r { approved = true; managed = true }) m killed u
      (λ r e f. own-IsFree name r m u e)
approve_update-IsKept name true m killed u = elim (Option-cases (lookup name m)) [
  | inl n ↦ rw (n, approve_update, approval_pin) (err-IsKept unknown_container)
  | inr (r, e) ↦ elim (Option-cases r.last_ip) [
    | inl n ↦ rw (e, n, approve_update, approval_pin) (err-IsKept no_address_observed)
    | inr (ip, h) ↦
        let f : ContainerRecord → ContainerRecord =
          λ r. record r { pinned_ip = some ip; approved = true; managed = true } in
        let x : approve_update name true m killed ≡ pin_then name (some ip) f m killed =
          rw (e, h, approve_update, approval_pin) refl in
        subst IsKept (sym x) (set-IsKept name (some ip) f m killed u (λ r e f. f))
  ]
]

pub pin_update-IsKept :
    (name : String) (ip : Option IpAddr) (m : Containers) (killed : Killed)
    → IsUniquelyPinned m
    → IsKept (pin_update name ip m killed)
unfolding pin_update
pin_update-IsKept name ip m killed u =
    set-IsKept name ip (λ r. record r { pinned_ip = ip; managed = true }) m killed u (λ r e f. f)

pub remove_update-IsKept :
    (name : String) (m : Containers) (killed : Killed)
    → IsUniquelyPinned m
    → IsKept (remove_update name m killed)
unfolding remove_update
remove_update-IsKept name m killed u = ok-IsKept _ _ (
    unfold IsUniquelyPinned in
    λ a b r q ip ea eb.
      ground (arith, lookup-remove name a m, lookup-remove name b m, u a b r q ip))

pub access_update-IsKept :
    (name : String) (access : ClineAccess) (m : Containers) (killed : Killed)
    → IsUniquelyPinned m
    → IsKept (access_update name access m killed)
unfolding access_update
access_update-IsKept name access m killed u = elim (Option-cases (lookup name m)) [
  | inl n ↦ rw (n, access_update) (err-IsKept _)
  | inr (r, e) ↦
      rw (e, access_update)
        (ok-IsKept _ killed (insert-IsUniquelyPinned name _ m u (own-IsFree name r m u e)))
]

pub kill_update-IsKept :
    (env : Env) (name : String) (kill : Bool) (m : Containers) (killed : Killed)
    → IsUniquelyPinned m
    → IsKept (kill_update env name kill m killed)
unfolding kill_update
kill_update-IsKept env name kill m killed u =
    ok-IsKept _ _ (insert-IsUniquelyPinned name _ m u (or_default-IsFree env name m u))
