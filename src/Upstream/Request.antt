-- ===== src/Upstream/Request.antt =====
-- crates/router-proxy/src/upstream.rs: the request that is sent to a backend. A text that is no URI, by
-- the crate `http`, is refused; header names are in lower case, as that crate keeps them.
use Prim.Native.String.{[] as empty_text, ◌∷◌ as cons_text, ◌++◌ as append_text}
use Prim.Native.Char.{code}
use keel_llm_router.Base.{
  Bool, true, false, not, ◌&&◌, ◌||◌, Option, List, String, ◌==◌, ◌=s=◌, if◌then◌else◌, keep,
  Result, ok, err, ◌≡◌, refl, ◌↔◌, Elem, Elem-keep, arith, =s=_iff, Bool-cases, inl, inr, sym,
  ok-injective, err-ne-ok,
}
use keel_llm_router.Json.{unwrap_or}

pub data UpstreamError : Type 0 where
  connect : UpstreamError
  build : UpstreamError

pub record Parts : Type 0 where
  pub http_method : String
  pub path_and_query : Option String
  pub headers : List (String × String)

pub record Outgoing (B : Type 0) : Type 0 where
  pub http_method : String
  pub uri : String
  pub headers : List (String × String)
  pub body : B

-- `uri.trim_end_matches('/')`
abbrev pub is_empty_text : String → Bool
is_empty_text empty_text = true
is_empty_text (cons_text c cs) = false

unfoldable pub trim_slashes : String → String
trim_slashes empty_text = empty_text
trim_slashes (cons_text c cs) =
    let rest = trim_slashes cs in
    if code c == 47 && is_empty_text rest then empty_text else cons_text c rest

-- The headers that are forwarded: all but HOST and CONTENT_LENGTH.
abbrev pub forwards : String × String → Bool
forwards h = not (h.0 =s= "host" || h.0 =s= "content-length")

unfoldable pub rebuild_request :
    {B : Type 0} → (String → Bool) → Parts → B → String → Result UpstreamError (Outgoing B)
rebuild_request is_uri parts body backend_uri =
    let path = unwrap_or parts.path_and_query "/" in
    let uri = append_text (trim_slashes backend_uri) path in
    if is_uri uri
    then ok (record {
      http_method = parts.http_method;
      uri = uri;
      headers = keep forwards parts.headers;
      body = body;
    })
    else err build

forwards_iff :
    (name value : String)
    → (forwards (name, value) ≡ true) ↔ ((¬ (name ≡ "host")) × (¬ (name ≡ "content-length")))
forwards_iff name value = ground (arith, =s=_iff name "host", =s=_iff name "content-length")

-- The headers of the request that is sent are those that came, but for the host and the length.
pub rebuild_forwards :
    {B : Type 0} (is_uri : String → Bool) (parts : Parts) (body : B) (backend_uri : String)
    (out : Outgoing B)
    → Path
        (Result UpstreamError (Outgoing B))
        (rebuild_request is_uri parts body backend_uri)
        (ok out)
    → (out.http_method ≡ parts.http_method)
      × ((name value : String)
          → Elem (name, value) out.headers ↔ (
              Elem (name, value) parts.headers
              × (¬ (name ≡ "host"))
              × (¬ (name ≡ "content-length"))))
unfolding rebuild_request
rebuild_forwards is_uri parts body backend_uri out e =
    elim (Bool-cases
      (is_uri (append_text (trim_slashes backend_uri) (unwrap_or parts.path_and_query "/")))) [
        | inl t ↦
            let same = ok-injective (rw (t, rebuild_request) at e) in
            rw (sym same) (
              refl,
              λ name value.
                  let (into, back) = Elem-keep forwards (name, value) parts.headers in
                  (
                    λ m.
                        let (not_host, not_length) = (forwards_iff name value).0 (into m).1 in
                        ((into m).0, not_host, not_length),
                    λ (came, not_host, not_length).
                        back (came, (forwards_iff name value).1 (not_host, not_length)),
                  ),
            )
        | inr n ↦ absurd (err-ne-ok (rw (n, rebuild_request) at e))
      ]
