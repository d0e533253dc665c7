-- ===== src/Profile/RoundTripper/Learned.antt =====
-- Profile.RoundTripper: where the order URL comes from.
use openshift_acme.Common.{
  String, Bool, true, false, not, ◌≡◌, refl, sym, ◌∙◌, Option, none, some, List, [], ◌∷◌, Any, ◌⊎◌,
  inl, inr, if◌then◌else◌, str_eq, is_empty, lookup, ◌&&◌, ◌==◌,
}
use mathlib.Core.Path.{subst}
use openshift_acme.Errors.{Result, ok, err, unread_body}
use openshift_acme.Kube.{Bytes}
use openshift_acme.Profile.RoundTripper.{
  Body, Request, Response, Directory, Tools, Tripper, Trip, passed, got, offered, learn,
  read_directory, get, post, send_rewritten, rewrite_new_order_jws, round_trip, is_empty_dict,
}

-- The client's requests, in their order, each with what the packages and the server reply to it.
abbrev pub trips : {V : Type 0} → Tripper → List (Tools V × Request) → Tripper
trips t [] = t
trips t ((tools, req) ∷ rs) = trips (round_trip tools t req).tripper rs

-- The reply to the request is a directory with the order URL that offers the profile.
pub record IsOffered {V : Type 0} (profile url : String) (r : Tools V × Request) : Type 0 where
  pub resp : Response
  pub replied : r.0.base r.1 ≡ ok resp
  pub body : Body
  pub has_body : resp.body ≡ some body
  pub directory : Directory
  pub decoded : r.0.decode_directory body.content ≡ some directory
  pub is_url : directory.new_order ≡ url
  pub description : String
  pub profiled : lookup profile directory.profiles ≡ some description

module _ {V : Type 0} (tools : Tools V) (t : Tripper) (req : Request) where
  -- The state has the profile, and its order URL is the one before or offered.
  record IsLearned (after : Tripper) : Type 0 where
    profile : after.profile ≡ t.profile
    url : (after.order_url ≡ t.order_url) ⊎ IsOffered t.profile after.order_url (tools, req)

  unchanged : IsLearned t
  unchanged = record { profile = refl; url = inl refl }

  if-IsLearned :
      (b : Bool) (x y : Trip)
      → IsLearned x.tripper
      → IsLearned y.tripper
      → IsLearned (if b then x else y).tripper
  if-IsLearned true x y h k = h
  if-IsLearned false x y h k = k

  module _ (resp : Response) (replied : tools.base req ≡ ok resp) (b : Body)
      (has_body : resp.body ≡ some b) where
    offered-IsLearned :
        (resp' : Response) (d : Directory) (o : Option String)
        → tools.decode_directory b.content ≡ some d
        → lookup t.profile d.profiles ≡ o
        → IsLearned (offered tools t req resp' d.new_order o).tripper
    unfolding offered got
    offered-IsLearned resp' d none decoded h = unchanged
    offered-IsLearned resp' d (some description) decoded h = record {
      profile = refl;
      url = inr (record {
        resp = resp;
        replied = replied;
        body = b;
        has_body = has_body;
        directory = d;
        decoded = decoded;
        is_url = refl;
        description = description;
        profiled = h;
      });
    }

    learn-IsLearned :
        (resp' : Response) (o : Option Directory)
        → tools.decode_directory b.content ≡ o
        → IsLearned (learn tools t req resp' o).tripper
    unfolding learn got
    learn-IsLearned resp' none decoded = unchanged
    learn-IsLearned resp' (some d) decoded = if-IsLearned (is_empty d.new_order) _ _ unchanged (
        if-IsLearned (is_empty_dict d.profiles) _ _ unchanged
          (offered-IsLearned resp' d _ decoded refl))

  read_directory-IsLearned :
      (resp : Response) (o : Option Body)
      → tools.base req ≡ ok resp
      → resp.body ≡ o
      → IsLearned (read_directory tools t req resp o).tripper
  unfolding read_directory got
  read_directory-IsLearned resp none replied h = unchanged
  read_directory-IsLearned resp (some b) replied h =
      if-IsLearned (not b.complete) _ _ unchanged (learn-IsLearned resp replied b h _ _ refl)

  get-IsLearned : (r : Result Response) → tools.base req ≡ r → IsLearned (get tools t req r).tripper
  unfolding get got
  get-IsLearned (err e) h = unchanged
  get-IsLearned (ok resp) h =
      if-IsLearned (not (resp.status_code == 200)) _ _ unchanged
        (read_directory-IsLearned resp _ h refl)

  send_rewritten-IsLearned : (r : Result Bytes) → IsLearned (send_rewritten tools t req r).tripper
  unfolding send_rewritten
  send_rewritten-IsLearned (err e) = unchanged
  send_rewritten-IsLearned (ok bytes) = unchanged

  post-IsLearned : (o : Option Body) → IsLearned (post tools t req o).tripper
  unfolding post passed
  post-IsLearned none = unchanged
  post-IsLearned (some b) =
      let failed = err unread_body in
      let rewritten = rewrite_new_order_jws tools b.content t.profile in
      if-IsLearned (not b.complete) (send_rewritten tools t req failed)
        (send_rewritten tools t req rewritten) (send_rewritten-IsLearned failed)
        (send_rewritten-IsLearned rewritten)

  round_trip-IsLearned : IsLearned (round_trip tools t req).tripper
  unfolding round_trip passed
  round_trip-IsLearned = if-IsLearned (str_eq req.method "GET") _ _ (get-IsLearned _ refl) (
      if-IsLearned
        (str_eq req.method "POST" && (not (is_empty t.order_url) && str_eq req.url t.order_url)) _ _
        (post-IsLearned req.body) unchanged)

-- After any requests of a client the order URL is the one it started with, or the reply to one of
-- the requests is a directory with this order URL that offers the client's profile.
pub order_url-IsOffered :
    {V : Type 0} (t : Tripper) (rs : List (Tools V × Request))
    → ((trips t rs).order_url ≡ t.order_url) ⊎ Any (IsOffered t.profile (trips t rs).order_url) rs
order_url-IsOffered t [] = inl refl
order_url-IsOffered t ((tools, req) ∷ rs) =
    let step = round_trip-IsLearned tools t req in
    let after = (round_trip tools t req).tripper in
    elim (order_url-IsOffered after rs) [
      | inl same ↦ elim step.url [
        | inl kept ↦ inl (same ∙ kept)
        | inr new ↦ inr (inl (subst (λ u. IsOffered t.profile u (tools, req)) (sym same) new))
      ]
      | inr later ↦
          inr
            (inr (subst (λ p. Any (IsOffered p (trips after rs).order_url) rs) step.profile later))
    ]
