-- ===== src/Kube/Key.antt =====
-- The annotation, label and data keys of pkg/api/types.go.
use Prim.Native.String.{String}

abbrev pub status : String
status = "acme.openshift.io/status"

abbrev pub priority : String
priority = "acme.openshift.io/priority"

abbrev pub filter_out_annotations : String
filter_out_annotations = "http.exposer.acme.openshift.io/filter-out-annotations"

abbrev pub filter_out_labels : String
filter_out_labels = "http.exposer.acme.openshift.io/filter-out-labels"

abbrev pub temporary : String
temporary = "acme.openshift.io/temporary"

abbrev pub exposer_id : String
exposer_id = "acme.openshift.io/exposer-id"

abbrev pub exposer_key : String
exposer_key = "acme.openshift.io/exposer-key"

abbrev pub exposer_uid : String
exposer_uid = "acme.openshift.io/exposer-uid"

abbrev pub cert_issuer_name : String
cert_issuer_name = "acme.openshift.io/cert-issuer-name"

abbrev pub cert_profile : String
cert_profile = "acme.openshift.io/cert-profile"

abbrev pub secret_name : String
secret_name = "acme.openshift.io/secret-name"

abbrev pub cert_issuer_data : String
cert_issuer_data = "cert-issuer.types.acme.openshift.io"
