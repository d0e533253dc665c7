-- ===== src/Effects.antt =====
-- What a reconciliation does to its surroundings: the calls that it makes of the work queue, of the
-- API server and of the ACME server, in their order, and its result. The calls that only read a
-- local cache or the clock are not recorded.
use openshift_acme.Common.{
  String, ◌≡◌, refl, List, [], ◌∷◌, ◌++◌, All, All-append, Bool, true, false, if◌then◌else◌,
}
use openshift_acme.Errors.{Error, Result, ok, err}
use openshift_acme.Kube.{Route, Secret, ConfigMap, Duration}
use openshift_acme.Kube.Workloads.{ReplicaSet, Service}
use openshift_acme.Acme.{Challenge}

pub data Action : Type 0 where
  add_after : String → Duration → Action
  patch_status : String → String → String → Action
  authorize_order : String → Action
  get_order : String → Action
  get_authorization : String → Action
  accept : Challenge → Action
  create_order_cert : String → Action
  create_route : Route → Action
  create_secret : Secret → Action
  create_replica_set : ReplicaSet → Action
  create_service : Service → Action
  get_route : String → String → Action
  update_route : Route → Action
  update_secret : Secret → Action
  delete_exposers : String → String → Action
  event : String → Action
  register_account : List String → Action
  get_registration : Action
  update_config_map : ConfigMap → Action

abbrev pub Eff : Type 0 → Type 0
Eff A = List Action × Result A

module _ {A : Type 0} where
  abbrev pub pure : A → Eff A
  pure a = ([], ok a)

  abbrev pub fail : Error → Eff A
  fail e = ([], err e)

  abbrev pub lift : Result A → Eff A
  lift r = ([], r)

  -- A call and its reply.
  abbrev pub call : Action → Result A → Eff A
  call a r = (a ∷ [], r)

abbrev pub act : Action → Eff (Unit {0})
act a = (a ∷ [], ok tt)

abbrev and_then : {B : Type 0} → List Action → Eff B → Eff B
and_then acts m = (acts ++ m.0, m.1)

module _ {A B : Type 0} where
  abbrev bind : List Action → Result A → (A → Eff B) → Eff B
  bind acts (ok a) f = and_then acts (f a)
  bind acts (err e) f = (acts, err e)

  infixl 5 ◌>>=◌ ◌>>◌
  unfoldable pub ◌>>=◌ : Eff A → (A → Eff B) → Eff B
  m >>= f = bind m.0 m.1 f

  abbrev pub ◌>>◌ : Eff A → Eff B → Eff B
  m >> k = m >>= λ _. k

-- An error that is only logged.
abbrev ignored : Result (Unit {0}) → Result (Unit {0})
ignored (ok u) = ok u
ignored (err e) = ok tt

unfoldable pub ignore_error : Eff (Unit {0}) → Eff (Unit {0})
ignore_error m = (m.0, ignored m.1)

-- Every action of `m` satisfies `P`.
pub record Only {A : Type 0} (P : Action → Type 0) (m : Eff A) : Type 0 where
  pub actions : All P m.0

module _ {A : Type 0} {P : Action → Type 0} where
  pub Only-pure : (a : A) → Only P (pure a)
  Only-pure a = record { actions = tt }

  pub Only-fail : (e : Error) → Only P (fail {A = A} e)
  Only-fail e = record { actions = tt }

  pub Only-lift : (r : Result A) → Only P (lift r)
  Only-lift r = record { actions = tt }

  pub Only-call : (a : Action) (r : Result A) → P a → Only P (call a r)
  Only-call a r h = record { actions = (h, tt) }

  pub Only-if :
      (b : Bool) (m n : Eff A)
      → (b ≡ true → Only P m)
      → (b ≡ false → Only P n)
      → Only P (if b then m else n)
  Only-if true m n h k = h refl
  Only-if false m n h k = k refl

module _ {P : Action → Type 0} where
  pub Only-act : (a : Action) → P a → Only P (act a)
  Only-act a h = record { actions = (h, tt) }

  pub Only-ignore_error : (m : Eff (Unit {0})) → Only P m → Only P (ignore_error m)
  unfolding ignore_error
  Only-ignore_error m h = record { actions = h.actions }

module _ {A B : Type 0} {P : Action → Type 0} where
  -- The rest of a block may use that the first part returned its value.
  pub Only-bind :
      (m : Eff A) (f : A → Eff B)
      → Only P m
      → ((a : A) → m.1 ≡ ok a → Only P (f a))
      → Only P (m >>= f)
  unfolding ◌>>=◌
  Only-bind m f h k = go m.1 refl
    where
      go : (r : Result A) → m.1 ≡ r → Only P (bind m.0 r f)
      go (ok a) e = record { actions = All-append P m.0 (f a).0 h.actions (k a e).actions }
      go (err e) _ = record { actions = h.actions }

module _ {A B : Type 0} where
  -- What a successful block says of its first part and of the rest.
  pub >>=-eq-ok :
      (m : Eff A) (f : A → Eff B) {b : B}
      → (m >>= f).1 ≡ ok b
      → (a : A) × (m.1 ≡ ok a) × ((f a).1 ≡ ok b)
  unfolding ◌>>=◌
  >>=-eq-ok m f {b} h = go m.1 refl h
    where
      go :
          (r : Result A)
          → m.1 ≡ r
          → (bind m.0 r f).1 ≡ ok b
          → (a : A) × (m.1 ≡ ok a) × ((f a).1 ≡ ok b)
      go (ok a) e h' = (a, e, h')
      go (err x) e h' = cc

pub Only-mono :
    {A : Type 0} {P Q : Action → Type 0} (m : Eff A)
    → ((a : Action) → P a → Q a)
    → Only P m
    → Only Q m
Only-mono {P = P} {Q = Q} m f h = record { actions = go m.0 h.actions }
  where
    go : (acts : List Action) → All P acts → All Q acts
    go [] k = tt
    go (a ∷ acts) k = (f a k.0, go acts k.1)

pub ignore_error-ok : (m : Eff (Unit {0})) → ignore_error m ≡ (m.0, ok tt)
unfolding ignore_error
ignore_error-ok m = go m.0 m.1
  where
    go :
        (acts : List Action) (r : Result (Unit {0}))
        → ◌≡◌ {A = Eff (Unit {0})} (acts, ignored r) (acts, ok tt)
    go acts (ok u) = refl
    go acts (err e) = refl

-- A block whose first part succeeds.
pub >>=-after :
    {A B : Type 0} {m : Eff A} {acts : List Action} {a : A} {n : Eff B} (f : A → Eff B)
    → m ≡ (acts, ok a)
    → f a ≡ n
    → (m >>= f) ≡ (acts ++ n.0, n.1)
unfolding ◌>>=◌
>>=-after f h k = rw (h, k) refl

pub Only-all : {A : Type 0} {P : Action → Type 0} → ((a : Action) → P a) → (m : Eff A) → Only P m
Only-all {P = P} h m = record { actions = go m.0 }
  where
    go : (acts : List Action) → All P acts
    go [] = tt
    go (a ∷ acts) = (h a, go acts)

pub Only-both :
    {A : Type 0} {P Q : Action → Type 0} (m : Eff A) → Only P m → Only Q m → Only (λ a. P a × Q a) m
Only-both {P = P} {Q = Q} m h k = record { actions = go m.0 h.actions k.actions }
  where
    go : (acts : List Action) → All P acts → All Q acts → All (λ a. P a × Q a) acts
    go [] h' k' = tt
    go (a ∷ acts) h' k' = ((h'.0, k'.0), go acts h'.1 k'.1)
