-- ===== src/Api/Outcomes.antt =====
-- The fetch wrappers of web/lib/api.ts together.
use pushfree.Common.{String, true, Option, none, some, ◌≡◌, refl, ap, inl, inr, Option-cases}
use pushfree.Text.{starts_with}
use pushfree.Text.Prefix.{starts_with-append}
use pushfree.Api.{
  Request, Response, Outcome, RawOutcome, Codec, parse_body, finish, finish_raw, post_request,
  put_request, delete_request, get_request, post_json, put_json, delete_json, get_json,
  get_json_raw,
}

-- The outcome without the response's headers.
abbrev pub forget_headers {ℓ} : {T : Type ℓ} → RawOutcome T → Outcome T
forget_headers RawOutcome.rejected = Outcome.rejected
forget_headers (RawOutcome.settled status body headers) = Outcome.settled status body

module _ (codec : Codec) where
  open codec use {Value, parse, stringify, raw_text, parse-stringify, stringify-truthy}

  -- A server's answer that repeats the posted JSON is read back as the value that was posted.
  pub parse_body-stringify : (v : Value) → parse_body codec (stringify v) ≡ some v
  unfolding parse_body
  parse_body-stringify v = rw (stringify-truthy v, parse-stringify v)

  finish_raw-finish : (o : Option Response) → forget_headers (finish_raw codec o) ≡ finish codec o
  unfolding finish finish_raw
  finish_raw-finish none = refl
  finish_raw-finish (some res) = elim (Option-cases res.text) [
    | inl lost ↦ rw lost
    | inr (text, read) ↦ rw read
  ]

  -- `getJSONRaw` is `getJSON` with the headers of the response kept.
  pub get_json_raw-get_json :
      (api_base : String) (fetch : Request → Option Response) (path : String)
      → forget_headers (get_json_raw codec api_base fetch path) ≡ get_json codec api_base fetch path
  unfolding get_json get_json_raw
  get_json_raw-get_json api_base fetch path =
      finish_raw-finish (fetch (get_request codec api_base fetch path))

  module _ (api_base : String) where
    -- A request that carries the session cookie and goes to the configured origin.
    abbrev pub IsOwn : Request → Type 0
    IsOwn r = (r.credentials ≡ "include") × (starts_with r.url api_base ≡ true)

    module _ (f g : Request → Option Response) (agree : (r : Request) → IsOwn r → f r ≡ g r) where
      -- Two networks that agree on the requests with the session cookie and a URL that begins with
      -- the API base give every wrapper the same outcome: no wrapper sends any other request.
      pub wrappers-IsOwn :
          (path : String) (body : Value)
          → (post_json codec api_base f path body ≡ post_json codec api_base g path body)
            × (put_json codec api_base f path body ≡ put_json codec api_base g path body)
            × (delete_json codec api_base f path ≡ delete_json codec api_base g path)
            × (get_json codec api_base f path ≡ get_json codec api_base g path)
            × (get_json_raw codec api_base f path ≡ get_json_raw codec api_base g path)
      unfolding post_json put_json delete_json get_json get_json_raw
      wrappers-IsOwn path body =
          let own = starts_with-append api_base path in
          (
            ap (finish codec) (agree (post_request codec api_base f path body) (refl, own)),
            ap (finish codec) (agree (put_request codec api_base f path body) (refl, own)),
            ap (finish codec) (agree (delete_request codec api_base f path) (refl, own)),
            ap (finish codec) (agree (get_request codec api_base f path) (refl, own)),
            ap (finish_raw codec) (agree (get_request codec api_base f path) (refl, own)),
          )
