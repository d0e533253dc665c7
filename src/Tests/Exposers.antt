-- ===== src/Tests/Exposers.antt =====
-- Names and resources of an exposer.
use openshift_acme.Common.{
  ℕ, insert, some, false, ◌≡◌, ◌≤◌, ◌<◌, ◌+◌, ◌*◌, refl, none, [], ◌∷◌, pos, negsuc, ltb, lookup,
  length, codes, All, inl, inr, arith,
}
use openshift_acme.Kube.{Bytes}
use openshift_acme.Kube.Workloads.{Quantity, Quantities, Resources, LimitRange, pod}
use openshift_acme.TemporaryName.{temporary_name}
use openshift_acme.TemporaryName.Labels.{IsLabelChar, temporary_name-IsLabel}
use openshift_acme.LimitRanges.{
  adjust_container, adjust_items, adjust_item, adjust_resource, round_half_down, magnitude, applies,
}
use openshift_acme.LimitRanges.Rounding.{round_half_down-nearest}
use openshift_acme.LimitRanges.Minimum.{IsOrder, limits_above_minimum}

abbrev sum256 : Bytes → Bytes
sum256 key =
    0 ∷ 255 ∷ 2 ∷ 3 ∷ 4 ∷ 5 ∷ 6 ∷ 7 ∷ 8 ∷ 9 ∷ 10 ∷ 11 ∷ 12 ∷ 13 ∷ 14 ∷ 15 ∷ 16 ∷ 17 ∷ 18 ∷ 19 ∷ 20
    ∷ 21 ∷ 22 ∷ 23 ∷ 24 ∷ 25 ∷ 26 ∷ 27 ∷ 28 ∷ 29 ∷ 30 ∷ 31 ∷ []

temporary_name-IsLabel_example :
    (length (temporary_name sum256 (codes "shop")) ≡ 60)
    × All IsLabelChar (temporary_name sum256 (codes "shop"))
    × ((rest : Bytes) × (temporary_name sum256 (codes "shop") ≡ b'e' ∷ rest))
temporary_name-IsLabel_example = temporary_name-IsLabel sum256 (codes "shop") refl (ground arith)

round_half_down-nearest_example :
    (2 * (magnitude (round_half_down (negsuc 6) (pos 2)) * 2) < 2 * 7 + 2)
    × (2 * 7 ≤ 2 * (magnitude (round_half_down (negsuc 6) (pos 2)) * 2) + 2)
round_half_down-nearest_example = round_half_down-nearest (negsuc 6) (pos 2) (ground arith)

half_rounds_down : round_half_down (negsuc 6) (pos 2) ≡ negsuc 2
unfolding round_half_down
half_rounds_down = refl

-- Quantities by the lengths of their texts.
abbrev size : Quantity → ℕ
size q = length (codes q.text)

abbrev quantities : Quantities
quantities = record {
  less = λ a b. ltb (size a) (size b);
  more = λ a b. ltb (size b) (size a);
  milli_value = λ q. pos (size q);
  from_milli = λ _. record { text = "" };
  milli_quantity = λ _. record { text = "" };
  binary_quantity = λ _. record { text = "" };
}

size-IsOrder : IsOrder quantities
size-IsOrder = record { irreflexive = λ q. ground arith; transitive = λ a b c h k. ground arith }

abbrev range : LimitRange
range = record {
  meta = record {
    name = "limits";
    namespace = "web";
    uid = "u1";
    resource_version = "1";
    generation = 1;
    creation_timestamp = pos 0;
    deletion_timestamp = none;
    labels = [];
    annotations = [];
    owner_references = [];
  };
  limits =
      record {
        type = pod;
        min = ("cpu", record { text = "++" }) ∷ [];
        max = [];
        max_limit_request_ratio = [];
      }
      ∷ [];
}

abbrev resources : Resources
resources = record {
  requests = ("cpu", record { text = "+" }) ∷ [];
  limits = ("cpu", record { text = "+" }) ∷ [];
}

raised_limit :
    lookup "cpu" (adjust_container quantities (range ∷ []) resources).0.limits
    ≡ some (record { text = "++" })
unfolding adjust_container lookup adjust_items adjust_item adjust_resource insert
raised_limit = refl

limits_above_minimum_example :
    quantities.less (record { text = "++" }) (record { text = "++" }) ≡ false
unfolding applies lookup
limits_above_minimum_example =
    limits_above_minimum quantities size-IsOrder "cpu" (record { text = "++" }) (range ∷ [])
      resources (record { text = "++" }) (inr refl) (inl (inl (refl, refl))) raised_limit
