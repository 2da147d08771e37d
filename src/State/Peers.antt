-- ===== src/State/Peers.antt =====
-- Whom the gates let in: a peer by its address, and a request by its epoch.
use friendzone.Prelude.{
  ◌≡◌, refl, ap, sym, subst, ◌∙◌, arith, inl, inr, ◌⊎◌, String, true, false, Option, none, some,
  List, [], ◌∷◌, Option-cases, Bool-cases, string_eq, nat_eq, nat_beq_iff, option_eq, eq_self,
}
use friendzone.Prelude.Map.{lookup, insert, lookup-insert}
use friendzone.Prelude.Result.{Result, ok, err}
use friendzone.Github.{IpAddr, Uuid}
use friendzone.State.{
  ContainerRecord, Containers, StateError, Authorization, AppState, Env, touch_container,
  pin_allows, contains, or_default, default_record,
}
use friendzone.State.Gate.{
  touch, touched, authorize_proxy_peer, peer_name, peer_verdict, is_pinned_to, presented_name,
  names_where, is_admitted, admit_request,
}

-- What a request needs: a known container that is approved and not killed, its current epoch, and
-- an address that its pin allows.
abbrev pub IsAllowed : String → IpAddr → Uuid → AppState → Type 0
IsAllowed name peer epoch s =
    (r : ContainerRecord) × (lookup name s.state.containers ≡ some r)
    × (r.approved ≡ true)
    × (contains name s.state.killed ≡ false)
    × (r.policy_epoch ≡ epoch)
    × (pin_allows r.pinned_ip peer ≡ true)

is_admitted-IsAllowed :
    (name : String) (peer : IpAddr) (epoch : Uuid) (s : AppState)
    → is_admitted name peer epoch s ≡ true
    → IsAllowed name peer epoch s
unfolding is_admitted
is_admitted-IsAllowed name peer epoch s h = elim (Option-cases (lookup name s.state.containers)) [
  | inl n ↦ ground arith
  | inr (r, e) ↦
      let g = nat_beq_iff r.policy_epoch epoch in
      (r, e, ground (arith, g), ground (arith, g), ground (arith, g), ground (arith, g))
]

IsAllowed-is_admitted :
    (name : String) (peer : IpAddr) (epoch : Uuid) (s : AppState)
    → IsAllowed name peer epoch s
    → is_admitted name peer epoch s ≡ true
unfolding is_admitted
IsAllowed-is_admitted name peer epoch s (r, e, a, k, g, p) =
    ground (arith, nat_beq_iff r.policy_epoch epoch)

-- Either a request is admitted, and its container is known, approved and not killed, its epoch is
-- the current one and its address is allowed; or it is not admitted, one of these fails, and
-- nothing changes.
admit_request_lem :
    (id : Uuid) (name : String) (peer : IpAddr) (epoch : Uuid) (reason : String) (s : AppState)
    → let (admitted, s') = admit_request id name peer epoch reason s in
      ((admitted ≡ true) × IsAllowed name peer epoch s)
      ⊎ ((admitted ≡ false) × (¬ IsAllowed name peer epoch s) × (s' ≡ s))
unfolding admit_request
admit_request_lem id name peer epoch reason s = elim (Bool-cases (is_admitted name peer epoch s)) [
  | inl t ↦ rw (t, admit_request) (inl (refl, is_admitted-IsAllowed name peer epoch s t))
  | inr f ↦
      rw (f, admit_request)
        (inr (refl, λ a. ground (arith, IsAllowed-is_admitted name peer epoch s a), refl))
]

-- The record that a gate sees, and its approval and pin.
touched-touch :
    (env : Env) (name : String) (peer : IpAddr) (s : AppState)
    → let r = or_default env name s.state.containers in
      touched env name (touch env name peer s)
      ≡ record r { last_activity = some env.now; last_ip = some peer }
unfolding touched touch touch_container or_default
touched-touch env name peer s =
    let r = record (or_default env name s.state.containers) {
      last_activity = some env.now;
      last_ip = some peer;
    } in
    let e : lookup name (insert name r s.state.containers) ≡ some r =
      ground (arith, lookup-insert name name r s.state.containers, eq_self name) in
    ap (λ o. elim o as (λ _. ContainerRecord) [ none ↦ default_record env | some q ↦ q ]) e

-- A record that is approved is no default.
or_default-approved :
    (env : Env) (name : String) (m : Containers)
    → (or_default env name m).approved ≡ true
    → lookup name m ≡ some (or_default env name m)
unfolding or_default default_record
or_default-approved env name m h = elim (Option-cases (lookup name m)) [
  | inl n ↦ ground arith
  | inr (r, e) ↦ rw (e, or_default) refl
]

peer_verdict-allowed :
    (peer : IpAddr) (presented : Option String) (r : ContainerRecord)
    → peer_verdict peer presented r ≡ ok Authorization.allowed
    → (r.approved ≡ true)
      × (pin_allows r.pinned_ip peer ≡ true)
      × (presented ≡ none → r.pinned_ip ≡ some peer)
unfolding peer_verdict is_pinned_to
peer_verdict-allowed peer none r h =
    let g = option_eq.beq_iff r.pinned_ip (some peer) in
    (ground (arith, g), ground (arith, g), λ _. ground (arith, g))
peer_verdict-allowed peer (some n) r h = (ground arith, ground arith, λ e. cc)

-- What a result with a name rests on.
authorize_proxy_peer-ok :
    (env : Env) (peer : IpAddr) (presented : Option String) (s : AppState) {name : String}
    {a : Authorization}
    → (authorize_proxy_peer env peer presented s).0 ≡ ok (name, a)
    → (peer_name peer presented s.state.containers ≡ ok name)
      × (peer_verdict peer presented (touched env name (touch env name peer s)) ≡ ok a)
unfolding authorize_proxy_peer
authorize_proxy_peer-ok env peer presented s {name = name} {a = a} h =
    go (peer_name peer presented s.state.containers) refl
  where
    go :
        (o : Result StateError String)
        → peer_name peer presented s.state.containers ≡ o
        → (peer_name peer presented s.state.containers ≡ ok name)
          × (peer_verdict peer presented (touched env name (touch env name peer s)) ≡ ok a)
    go (err e) k =
        let x : (authorize_proxy_peer env peer presented s).0 ≡ err e =
          rw (k, authorize_proxy_peer) refl in
        (cc, cc)
    go (ok n) k = judge (peer_verdict peer presented (touched env n (touch env n peer s))) refl
      where
        judge :
            (v : Result StateError Authorization)
            → peer_verdict peer presented (touched env n (touch env n peer s)) ≡ v
            → (peer_name peer presented s.state.containers ≡ ok name)
              × (peer_verdict peer presented (touched env name (touch env name peer s)) ≡ ok a)
        judge (err e) q =
            let x : (authorize_proxy_peer env peer presented s).0 ≡ err e =
              rw (k, authorize_proxy_peer, q) refl in
            (cc, cc)
        judge (ok v) q =
            let x : (authorize_proxy_peer env peer presented s).0 ≡ ok (n, v) =
              rw (k, authorize_proxy_peer, q) refl in
            let y : n ≡ name = cc in
            let z : v ≡ a = cc in
            (
              k ∙ ap ok y,
              subst (λ w. peer_verdict peer presented (touched env w (touch env w peer s)) ≡ ok a) y
                  (q ∙ ap ok z),
            )

-- The name that a peer goes by is the one it presented.
peer_name-presented :
    (peer : IpAddr) (n : String) (m : Containers) {name : String}
    → peer_name peer (some n) m ≡ ok name
    → name ≡ n
unfolding peer_name presented_name
peer_name-presented peer n m {name = name} h = go (names_where (is_pinned_to peer) m) h
  where
    go : (l : List String) → presented_name n l ≡ ok name → name ≡ n
    go [] g = cc
    go (o ∷ []) g = ground arith
    go (o ∷ o' ∷ l) g = cc

-- A peer that is let in is a known container that the host has approved, and its pin allows the
-- peer's address; a peer that presents no name has a pin to just that address, and one that
-- presents a name is let in under no other.
pub authorize_proxy_peer-allowed :
    (env : Env) (peer : IpAddr) (presented : Option String) (s : AppState) {name : String}
    → (authorize_proxy_peer env peer presented s).0 ≡ ok (name, Authorization.allowed)
    → (r : ContainerRecord) × (lookup name s.state.containers ≡ some r)
      × (r.approved ≡ true)
      × (pin_allows r.pinned_ip peer ≡ true)
      × (((presented ≡ none) × (r.pinned_ip ≡ some peer)) ⊎ (presented ≡ some name))
authorize_proxy_peer-allowed env peer presented s {name = name} h =
    let (n, v) =
      authorize_proxy_peer-ok env peer presented s {name = name} {a = Authorization.allowed} h in
    let t = touched-touch env name peer s in
    let (a, p, q) =
      peer_verdict-allowed peer presented (touched env name (touch env name peer s)) v in
    let r = or_default env name s.state.containers in
    let g : r.approved ≡ true = ap (λ r. r.approved) (sym t) ∙ a in
    let k : r.pinned_ip ≡ (touched env name (touch env name peer s)).pinned_ip =
      ap (λ r. r.pinned_ip) (sym t) in
    (
      r,
      or_default-approved env name s.state.containers g,
      g,
      ap (λ o. pin_allows o peer) k ∙ p,
      elim (Option-cases presented) [
        | inl e ↦ inl (e, k ∙ q e)
        | inr (m, e) ↦ inr (
            e
            ∙ ap some (
                sym (
                  peer_name-presented peer m s.state.containers {name = name}
                    (ap (λ o. peer_name peer o s.state.containers) (sym e) ∙ n))))
      ],
    )
