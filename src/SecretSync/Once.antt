-- ===== src/SecretSync/Once.antt =====
-- A synchronization of a route to a secret writes at most once.
use openshift_acme.Common.{
  ℕ, suc, ◌≤◌, String, Bool, true, false, Option, none, some, List, [], ◌∷◌, arith, if◌then◌else◌,
}
use openshift_acme.Errors.{Result, ok, err}
use openshift_acme.Kube.{Route, Secret, TlsConfig, OwnerReference}
use openshift_acme.Reconcile.Sync.{is_deleted}
use openshift_acme.Effects.{Action, Eff, pure, lift, ◌>>=◌, create_secret, update_secret}
use openshift_acme.World.{World}
use openshift_acme.SecretSync.{
  sync_route_to_secret, filled, new_secret, same_secret, update_controlled, update_copy,
  update_resolved, colliding, write_copy, create_copy, copy_named, copy_tls, copy_route, copy_found,
}

-- The calls that create or update a secret.
abbrev pub writes : List Action → ℕ
writes [] = 0
writes (create_secret s ∷ as') = suc (writes as')
writes (update_secret s ∷ as') = suc (writes as')
writes (_ ∷ as') = writes as'

abbrev Once : Eff (Unit {0}) → Type 0
Once m = writes m.0 ≤ 1

-- A block that only reads first.
lift-Once :
    {A : Type 0} (r : Result A) (f : A → Eff (Unit {0}))
    → ((a : A) → Once (f a))
    → Once (lift r >>= f)
unfolding ◌>>=◌
lift-Once (ok a) f h = h a
lift-Once (err e) f h = omega arith

if-Once : (b : Bool) (m n : Eff (Unit {0})) → Once m → Once n → Once (if b then m else n)
if-Once true m n h k = h
if-Once false m n h k = k

-- One call, and nothing after it.
one_call : (a : Action) → writes (a ∷ []) ≤ 1
one_call (create_secret s) = omega arith
one_call (update_secret s) = omega arith
one_call _ = omega arith

call-Once : {A : Type 0} (a : Action) (r : Result A) → Once ((a ∷ [], r) >>= λ _. ([], ok tt))
unfolding ◌>>=◌
call-Once a (ok b) = one_call a
call-Once a (err e) = one_call a

nothing-Once : Once ([], ok tt)
nothing-Once = omega arith

module _ (w : World) (key : String) (route : Route) where
  module _ (tls : TlsConfig) where
    colliding-Once : Once (colliding w key route tls)
    unfolding colliding ◌>>=◌
    colliding-Once = omega arith

    update_copy-Once : (old : Secret) → Once (update_copy w key route tls old)
    unfolding update_copy
    update_copy-Once old =
        if-Once (same_secret (filled route tls old) old) (pure tt) _ nothing-Once (
          call-Once (update_secret (filled route tls old))
            (w.api.update_secret (filled route tls old)))

    update_resolved-Once :
        (owner : Option Route) (old : Secret) → Once (update_resolved w key route tls owner old)
    unfolding update_resolved
    update_resolved-Once none old = colliding-Once
    update_resolved-Once (some owner) old = update_copy-Once old

    update_controlled-Once :
        (ref : Option OwnerReference) (old : Secret)
        → Once (update_controlled w key route tls ref old)
    unfolding update_controlled
    update_controlled-Once none old = colliding-Once
    update_controlled-Once (some ref) old = update_resolved-Once _ old

    write_copy-Once :
        (name : String) (found : Option Secret) → Once (write_copy w key route tls name found)
    unfolding write_copy create_copy
    write_copy-Once name none =
        call-Once (create_secret (filled route tls (new_secret name)))
          (w.api.create_secret (filled route tls (new_secret name)))
    write_copy-Once name (some old) = update_controlled-Once _ old

  copy_named-Once :
      (tls : TlsConfig) (name : Option String) → Once (copy_named w key route tls name)
  unfolding copy_named
  copy_named-Once tls none = omega arith
  copy_named-Once tls (some name) = lift-Once _ _ (write_copy-Once tls name)

  copy_tls-Once : (tls : Option TlsConfig) → Once (copy_tls w key route tls)
  unfolding copy_tls
  copy_tls-Once none = omega arith
  copy_tls-Once (some tls) = copy_named-Once tls _

copy_found-Once : (w : World) (key : String) (found : Option Route) → Once (copy_found w key found)
unfolding copy_found copy_route
copy_found-Once w key none = omega arith
copy_found-Once w key (some route) =
    if-Once (is_deleted route.meta.deletion_timestamp) (pure tt) (copy_tls w key route route.tls)
      nothing-Once (copy_tls-Once w key route route.tls)

pub sync-writes : (w : World) (key : String) → writes (sync_route_to_secret w key).0 ≤ 1
unfolding sync_route_to_secret
sync-writes w key = lift-Once _ _ (λ parts. lift-Once _ _ (copy_found-Once w key))
