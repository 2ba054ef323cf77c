-- ===== src/Arg/Urls.antt =====
-- The URLs of src/arg.rs: their schemes, and reading back what is printed.
use penguin_rs.Base.{
  ℕ, ◌≡◌, refl, sym, ap, ◌∙◌, ◌⊎◌, inl, inr, subst, Bool, true, false, not, ◌&&◌, ◌||◌, Option,
  none, some, Result, ok, err, ◌>>=◌, >>=-eq-ok, if◌then◌else◌,
}
use penguin_rs.Remote.Str.{Text, is_text}
use penguin_rs.Arg.{
  Parts, Http, http, https, ws, wss, slash, unwrap_or, incorrect_scheme, missing_host, build_url,
  BackendUrl, new_scheme, ok_or, or_error, url_parts, server_url_of, server_url_from_str,
  checked_scheme, backend_url_from_str, fmt_backend_url,
}

picked :
    (a b : Bool) (old s : Text)
    → (if a then ok ws else if b then ok wss else err (incorrect_scheme old)) ≡ ok s
    → (s ≡ ws) ⊎ (s ≡ wss)
picked true b old s h = inl (cc h)
picked false true old s h = inr (cc h)
picked false false old s h = absurd (cc h)

new_scheme_cases : (old s : Text) → new_scheme old ≡ ok s → (s ≡ ws) ⊎ (s ≡ wss)
unfolding new_scheme
new_scheme_cases old s h =
    picked (is_text old http || is_text old ws) (is_text old https || is_text old wss) old s h

new_scheme_same : (old s : Text) → new_scheme old ≡ ok s → new_scheme s ≡ ok s
unfolding new_scheme is_text
new_scheme_same old s h = elim (new_scheme_cases old s h) [ inl e ↦ rw e refl | inr e ↦ rw e refl ]

new_scheme_secure : (old s : Text) → (old ≡ https) ⊎ (old ≡ wss) → new_scheme old ≡ ok s → s ≡ wss
unfolding new_scheme is_text
new_scheme_secure old s (inl e) h = cc (subst (λ t. new_scheme t ≡ ok s) e h)
new_scheme_secure old s (inr e) h = cc (subst (λ t. new_scheme t ≡ ok s) e h)

-- What a text that is read as a server URL was built from.
record IsBuilt (crate : Http) (parts : Parts) (u : crate.Uri) : Type 0 where
  scheme : Text
  authority : Text
  scheme_lem : new_scheme (unwrap_or parts.scheme http) ≡ ok scheme
  authority_lem : parts.authority ≡ some authority
  build_lem : crate.build scheme authority (unwrap_or parts.path_and_query slash) ≡ ok u

module _ (crate : Http) where
  open crate use {Uri, from_str, into_parts, to_string, build}

  or_error-ok :
      {E A : Type 0} (kind : ℕ → E) (r : Result ℕ A) (a : A) → or_error kind r ≡ ok a → r ≡ ok a
  unfolding or_error
  or_error-ok kind (err e) a h = absurd (cc h)
  or_error-ok kind (ok x) a h = cc h

  ok_or-ok : {E : Type 0} (e : E) (o : Option Text) (t : Text) → ok_or e o ≡ ok t → o ≡ some t
  unfolding ok_or
  ok_or-ok e none t h = absurd (cc h)
  ok_or-ok e (some x) t h = cc h

  server_url_of-IsBuilt :
      (parts : Parts) (u : Uri) → server_url_of crate parts ≡ ok u → IsBuilt crate parts u
  unfolding server_url_of
  server_url_of-IsBuilt parts u h =
      let (s, hs, h1) = >>=-eq-ok (new_scheme (unwrap_or parts.scheme http)) _ u h in
      let (a, ha, h2) = >>=-eq-ok (ok_or missing_host parts.authority) _ u h1 in
      record {
        scheme = s;
        authority = a;
        scheme_lem = hs;
        authority_lem = ok_or-ok missing_host parts.authority a ha;
        build_lem = or_error-ok build_url (build s a (unwrap_or parts.path_and_query slash)) u h2;
      }

  url_parts-ok :
      (url : Text) (v : Uri) → from_str url ≡ ok v → url_parts crate url ≡ ok (into_parts v)
  unfolding url_parts
  url_parts-ok url v p = rw p refl

  -- A URL that was built is read as itself, where its scheme is kept.
  read_back :
      (s a path : Text) (u : Uri)
      → build s a path ≡ ok u
      → new_scheme s ≡ ok s
      → server_url_from_str crate (to_string u) ≡ ok u
  unfolding server_url_from_str server_url_of
  read_back s a path u b n =
      rw
        (
          url_parts-ok (to_string u) u (crate.from_str-to_string s a path u b),
          crate.into_parts-build s a path u b,
          n,
          b,
        )
        refl

  -- A URL that is given with the scheme `https` or `wss` leads to a `wss` URL for the same authority:
  -- encryption that was asked for is never dropped.
  pub server_url_from_str_secure :
      (url : Text) (v u : Uri) (s : Text)
      → from_str url ≡ ok v
      → (into_parts v).scheme ≡ some s
      → (s ≡ https) ⊎ (s ≡ wss)
      → server_url_from_str crate url ≡ ok u
      → ((into_parts u).scheme ≡ some wss) × ((into_parts u).authority ≡ (into_parts v).authority)
  unfolding server_url_from_str
  server_url_from_str_secure url v u s p e o h =
      let built =
        server_url_of-IsBuilt (into_parts v) u
          (subst (λ r. (r >>= server_url_of crate) ≡ ok u) (url_parts-ok url v p) h) in
      let parts = crate.into_parts-build built.scheme built.authority _ u built.build_lem in
      let kept : new_scheme s ≡ ok built.scheme =
        subst (λ t. new_scheme (unwrap_or t http) ≡ ok built.scheme) e built.scheme_lem in
      (
        ap (λ t. t.scheme) parts ∙ ap (λ t. some t) (new_scheme_secure s built.scheme o kept),
        ap (λ t. t.authority) parts ∙ sym built.authority_lem,
      )

  -- The printed form of a server URL is read as the same URL.
  pub server_url_from_str-to_string :
      (url : Text) (u : Uri)
      → server_url_from_str crate url ≡ ok u
      → server_url_from_str crate (to_string u) ≡ ok u
  unfolding server_url_from_str
  server_url_from_str-to_string url u h =
      let (parts, hp, ho) = >>=-eq-ok (url_parts crate url) (server_url_of crate) u h in
      let built = server_url_of-IsBuilt parts u ho in
      read_back built.scheme built.authority _ u built.build_lem
        (new_scheme_same _ built.scheme built.scheme_lem)

  -- A backend URL whose parts make a URI, and whose scheme is `http` or `https`, is read back from
  -- what is printed.
  pub backend_url_from_str-fmt :
      (b : BackendUrl) (u : Uri)
      → (b.scheme ≡ http) ⊎ (b.scheme ≡ https)
      → build b.scheme b.authority b.path ≡ ok u
      → backend_url_from_str crate (fmt_backend_url b) ≡ ok b
  unfolding backend_url_from_str fmt_backend_url checked_scheme
  backend_url_from_str-fmt b u o h =
      rw
        (
          sym (crate.to_string-build b.scheme b.authority b.path u h),
          crate.from_str-to_string b.scheme b.authority b.path u h,
          crate.into_parts-build b.scheme b.authority b.path u h,
          allowed b.scheme o,
        )
        refl
    where
      allowed :
          (s : Text)
          → (s ≡ http) ⊎ (s ≡ https)
          → (not (is_text s http) && not (is_text s https)) ≡ false
      allowed s (inl e) = rw (e, is_text) refl
      allowed s (inr e) = rw (e, is_text) refl
