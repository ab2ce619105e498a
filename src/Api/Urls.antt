-- ===== src/Api/Urls.antt =====
-- The URLs that the dashboard builds around a token or a device's credentials.
use pushfree.Common.{String, [], ◌∷◌, some, ◌≡◌, refl}
use pushfree.Text.{append, concat}
use pushfree.Text.Uri.{is_unreserved, encode_uri_component}
use pushfree.Text.Query.Decode.{decode, bytes, decode-encode_uri_component}
use pushfree.Text.Query.Scan.{
  cons_head, encode_uri_component-safe, before, after, field_value, split, query_value, AllChars,
  is_not, before_free, before-append_free, after-append_free, split_free, split-append_free,
  AllChars-append,
}
use pushfree.Text.Query.Fields.{all_chars, piece_free, AllChars-is_not}

-- `/1/apps/limits.json?token=${encodeURIComponent(token)}`
unfoldable pub limits_path : String → String
unfolding concat
limits_path token = concat ("/1/apps/limits.json?token=" ∷ encode_uri_component token ∷ [])

-- `/v1/apps/${encodeURIComponent(token)}`
unfoldable pub app_path : String → String
unfolding concat
app_path token = concat ("/v1/apps/" ∷ encode_uri_component token ∷ [])

-- `/1/sse?device_id=${encodeURIComponent(deviceId)}&secret=${encodeURIComponent(secret)}`
unfoldable pub sse_path : String → String → String
unfolding concat
sse_path device_id secret = concat (
    "/1/sse?device_id="
    ∷ encode_uri_component device_id
    ∷ "&secret="
    ∷ encode_uri_component secret
    ∷ [])

module _ (base : String) (hq : AllChars (is_not b'?') base) (hf : AllChars (is_not b'#') base) where
  -- Under an API base without `?` and `#`, a server reads from the quota URL the token unchanged,
  -- whatever its characters.
  pub query_value-limits_path :
      (token : String) → query_value "token" (append base (limits_path token)) ≡ some (bytes token)
  unfolding query_value limits_path all_chars is_unreserved
  query_value-limits_path token =
      rw
        (
          before-append_free b'#' base _ hf,
          before_free b'#' _ (piece_free b'#' "/1/apps/limits.json?token=" token refl refl),
          after-append_free b'?' base _ hq,
          split_free b'&' _ (piece_free b'&' "token=" token refl refl),
        )
        (decode-encode_uri_component token)

  sse_fields :
      (device_id secret : String)
      → split b'&' (after b'?' (before b'#' (append base (sse_path device_id secret))))
        ≡ append "device_id=" (encode_uri_component device_id)
          ∷ append "secret=" (encode_uri_component secret)
          ∷ []
  unfolding sse_path all_chars is_unreserved after
  sse_fields device_id secret =
      let first = append "/1/sse?device_id=" (encode_uri_component device_id) in
      let second = append "&secret=" (encode_uri_component secret) in
      let no_fragment =
        AllChars-append (is_not b'#') first second
          (piece_free b'#' "/1/sse?device_id=" device_id refl refl)
          (piece_free b'#' "&secret=" secret refl refl) in
      let both =
        split-append_free b'&' (append "device_id=" (encode_uri_component device_id)) "&"
          (append "secret=" (encode_uri_component secret))
          (piece_free b'&' "device_id=" device_id refl refl) refl in
      let last =
        split_free b'&' (append "secret=" (encode_uri_component secret))
          (piece_free b'&' "secret=" secret refl refl) in
      rw
        (
          before-append_free b'#' base (append first second) hf,
          before_free b'#' (append first second) no_fragment,
          after-append_free b'?' base (append first second) hq,
        )
        (rw (← last) both)

  -- Both credentials of the stream's URL reach the server unchanged.
  pub query_value-sse_path :
      (device_id secret : String)
      → (query_value "device_id" (append base (sse_path device_id secret)) ≡ some (bytes device_id))
        × (query_value "secret" (append base (sse_path device_id secret)) ≡ some (bytes secret))
  unfolding query_value field_value append
  query_value-sse_path device_id secret =
      rw (sse_fields device_id secret)
        (decode-encode_uri_component device_id, decode-encode_uri_component secret)

-- The path of a revocation has the segments `v1`, `apps` and one more, no query and no fragment, and
-- the last segment decodes to the token, whatever its characters.
pub split-app_path :
    (token : String)
    → (split b'/' (app_path token) ≡ "" ∷ "v1" ∷ "apps" ∷ encode_uri_component token ∷ [])
      × AllChars (is_not b'?') (app_path token)
      × AllChars (is_not b'#') (app_path token)
      × (decode (encode_uri_component token) ≡ some (bytes token))
unfolding app_path all_chars is_unreserved split append cons_head
split-app_path token = (
  rw (
      split_free b'/' (encode_uri_component token)
        (AllChars-is_not b'/' (encode_uri_component token) refl (encode_uri_component-safe token))),
  piece_free b'?' "/v1/apps/" token refl refl,
  piece_free b'#' "/v1/apps/" token refl refl,
  decode-encode_uri_component token,
)
