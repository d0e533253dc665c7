-- ===== src/Kube/Admitted.antt =====
-- pkg/route/route.go: whether the routers have admitted a route.
use openshift_acme.Common.{
  Bool-cases, and_true, true_and, ◌≡◌, ◌↔◌, ◌⊎◌, inl, inr, All, Any, flatten, refl, Bool, true,
  false, ◌&&◌, List, [], ◌∷◌, ◌++◌, arith, if◌then◌else◌, str_eq, eq_iff,
}
use openshift_acme.Kube.{Condition, Route}

-- The two variables of the loops.
pub record Seen : Type 0 where
  pub admitted_set : Bool
  pub admitted_value : Bool

see_condition : Seen → Condition → Seen
see_condition s c =
    if str_eq c.type "Admitted"
    then record {
      admitted_set = true;
      admitted_value = if str_eq c.status "True" then s.admitted_value else false;
    }
    else s

see_conditions : Seen → List Condition → Seen
see_conditions s [] = s
see_conditions s (c ∷ cs) = see_conditions (see_condition s c) cs

see_ingresses : Seen → List (List Condition) → Seen
see_ingresses s [] = s
see_ingresses s (i ∷ is) = see_ingresses (see_conditions s i) is

abbrev start : Seen
start = record { admitted_set = false; admitted_value = true }

unfoldable pub is_admitted : Route → Bool
unfolding see_condition see_conditions see_ingresses
is_admitted route = let s = see_ingresses start route.ingress in s.admitted_set && s.admitted_value

abbrev pub IsAdmission : Condition → Type 0
IsAdmission c = c.type ≡ "Admitted"

abbrev pub IsNotRefused : Condition → Type 0
IsNotRefused c = c.type ≡ "Admitted" → c.status ≡ "True"

see_conditions-append :
    (s : Seen) (cs ds : List Condition)
    → see_conditions s (cs ++ ds) ≡ see_conditions (see_conditions s cs) ds
unfolding see_conditions
see_conditions-append s [] ds = refl
see_conditions-append s (c ∷ cs) ds = see_conditions-append (see_condition s c) cs ds

see_ingresses-flatten :
    (s : Seen) (is : List (List Condition)) → see_ingresses s is ≡ see_conditions s (flatten is)
unfolding see_ingresses see_conditions
see_ingresses-flatten s [] = refl
see_ingresses-flatten s (i ∷ is) =
    rw see_conditions-append (see_ingresses-flatten (see_conditions s i) is)

-- What the loops have seen of a list of conditions, from a state on.
admitted_set_iff :
    (s : Seen) (cs : List Condition)
    → ((see_conditions s cs).admitted_set ≡ true) ↔ ((s.admitted_set ≡ true) ⊎ Any IsAdmission cs)
unfolding see_conditions see_condition
admitted_set_iff s [] = (λ h. inl h, λ h. elim h [ inl e ↦ e | inr n ↦ absurd n ])
admitted_set_iff s (c ∷ cs) =
    let ih = admitted_set_iff (see_condition s c) cs in
    (
      λ h. ground (arith, eq_iff c.type "Admitted", ih.0 h),
      λ h. ih.1 (ground (arith, eq_iff c.type "Admitted", h)),
    )

see_condition-admitted_value :
    (s : Seen) (c : Condition)
    → ((see_condition s c).admitted_value ≡ true) ↔ ((s.admitted_value ≡ true) × IsNotRefused c)
unfolding see_condition
see_condition-admitted_value s c = (
  λ h. (
    ground (arith, eq_iff c.type "Admitted"),
    λ t. ground (arith, eq_iff c.type "Admitted", eq_iff c.status "True"),
  ),
  λ h. elim (Bool-cases (str_eq c.type "Admitted")) [
    | inl e ↦ ground (arith, eq_iff c.status "True", h.1 ((eq_iff c.type "Admitted").0 e))
    | inr e ↦ ground (arith, h.0)
  ],
)

admitted_value_iff :
    (s : Seen) (cs : List Condition)
    → ((see_conditions s cs).admitted_value ≡ true)
      ↔ ((s.admitted_value ≡ true) × All IsNotRefused cs)
unfolding see_conditions see_condition
admitted_value_iff s [] = (λ h. (h, tt), λ h. h.0)
admitted_value_iff s (c ∷ cs) =
    let ih = admitted_value_iff (see_condition s c) cs in
    let step = see_condition-admitted_value s c in
    (
      λ h. ((step.0 (ih.0 h).0).0, ((step.0 (ih.0 h).0).1, (ih.0 h).1)),
      λ h. ih.1 (step.1 (h.0, h.1.0), h.1.1),
    )

-- A route is admitted exactly when some ingress has a condition "Admitted", and every such
-- condition of every ingress has the status "True".
pub is_admitted_iff :
    (r : Route)
    → (is_admitted r ≡ true)
      ↔ (Any IsAdmission (flatten r.ingress) × All IsNotRefused (flatten r.ingress))
unfolding is_admitted
is_admitted_iff r =
    let set = admitted_set_iff start (flatten r.ingress) in
    let value = admitted_value_iff start (flatten r.ingress) in
    rw see_ingresses-flatten (
      λ h. (
        (elim (set.0 (and_true _ _ h).0) [ inl e ↦ cc | inr a ↦ a ]),
        (value.0 (and_true _ _ h).1).1,
      ),
      λ h. true_and _ _ (set.1 (inr h.0)) (value.1 (refl, h.1)),
    )
