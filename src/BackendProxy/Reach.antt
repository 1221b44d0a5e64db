-- ===== src/BackendProxy/Reach.antt =====
-- What a phone can reach through the proxy (node/backend_proxy.py).
use meshlink_node.Prelude.{
  Bool, Bool-cases, Bytes, Dict, List, Option, Option-cases, Text, [], beq_eq, codes, contains,
  contains-put, false, if◌then◌else◌, inl, inr, is_some, keys, none, not, put, refl, some, subst,
  sym, true, ◌&&◌, ◌++◌, ◌==◌, ◌∙◌, ◌∷◌, ◌≡◌, nat_eq, list_eq,
}
use meshlink_node.Json.{
  Value, null, boolean, integer, real, array, text, object, Fields, no_fields, field, field_of,
  Json,
}
use meshlink_node.BackendProxy.{
  allowed_rest_paths, allowed_methods, starts_with_any, has_dots, before_query, text_path_allowed,
  path_allowed, method_allowed, Request, Uplink, canonical, data_of, add_headers, headers_of,
  execute,
}

-- Under /rest/v1/ a path is allowed only by its exact name, whatever query follows it.
pub rest_path-exact :
    (x : Text)
    → let path = codes "/rest/v1/" ++ x in
      text_path_allowed path
      ≡ (not (has_dots path) && contains allowed_rest_paths (before_query path))
unfolding text_path_allowed starts_with_any
rest_path-exact x = refl

abbrev pub allowed_headers : List Text
allowed_headers =
    codes "Content-Type" ∷ codes "Authorization" ∷ codes "apikey" ∷ codes "Prefer" ∷ []

abbrev pub HeadersAllowed : Dict Text Text → Type 0
HeadersAllowed d = (n : Text) → contains (keys d) n ≡ true → contains allowed_headers n ≡ true

-- A request that the proxy may make: an allowed path behind the configured base, a GET or a POST, and no
-- header but the four.
abbrev pub Reaches : Uplink → Option Request → Type 0
Reaches k none = Unit
Reaches k (some r) =
    ((path : Text) × (r.url ≡ k.base_url ++ path) × (text_path_allowed path ≡ true))
    × (contains allowed_methods r.method ≡ true)
    × HeadersAllowed r.headers

-- A text that a check let through.
abbrev Passed : (Text → Bool) → Option Text → Type 0
Passed test none = Unit
Passed test (some t) = test t ≡ true

canonical-Passed : (key : Text) → Passed (contains allowed_headers) (canonical key)
unfolding canonical
canonical-Passed key = elim (Bool-cases (key == codes "authorization")) [
  | inl a ↦ rw (a, canonical) refl
  | inr a ↦ elim (Bool-cases (key == codes "apikey")) [
    | inl b ↦ rw (a, canonical, b) refl
    | inr b ↦ elim (Bool-cases (key == codes "prefer")) [
      | inl c ↦ rw (a, canonical, b, c) refl
      | inr c ↦ rw (a, canonical, b, c) tt
    ]
  ]
]

put-HeadersAllowed :
    (d : Dict Text Text) (name value : Text)
    → contains allowed_headers name ≡ true
    → HeadersAllowed d
    → HeadersAllowed (put d name value)
put-HeadersAllowed d name value a h n e = elim (Bool-cases (name == n)) [
  | inl same ↦ subst (λ x. contains allowed_headers x ≡ true) (beq_eq name n same) a
  | inr other ↦ h n (sym (contains-put d name n value ∙ rw other refl) ∙ e)
]

if-Passed : (test : Text → Bool) (t : Text) → Passed test (if test t then some t else none)
if-Passed test t = elim (Bool-cases (test t)) [ inl e ↦ rw e e | inr e ↦ rw e tt ]

module _ {F : Type 0} where
  path_allowed-Passed : (v : Option (Value F)) → Passed text_path_allowed (path_allowed v)
  unfolding path_allowed
  path_allowed-Passed (some (text t)) = if-Passed text_path_allowed t
  path_allowed-Passed none = tt
  path_allowed-Passed (some null) = tt
  path_allowed-Passed (some (boolean b)) = tt
  path_allowed-Passed (some (integer n)) = tt
  path_allowed-Passed (some (real x)) = tt
  path_allowed-Passed (some (array vs)) = tt
  path_allowed-Passed (some (object fs)) = tt

  method_allowed-Passed :
      (v : Option (Value F)) → Passed (contains allowed_methods) (method_allowed v)
  unfolding method_allowed
  method_allowed-Passed (some (text t)) = if-Passed (contains allowed_methods) t
  method_allowed-Passed none = tt
  method_allowed-Passed (some null) = tt
  method_allowed-Passed (some (boolean b)) = tt
  method_allowed-Passed (some (integer n)) = tt
  method_allowed-Passed (some (real x)) = tt
  method_allowed-Passed (some (array vs)) = tt
  method_allowed-Passed (some (object fs)) = tt

module _ (j : Json) (k : Uplink) where
  add_headers-HeadersAllowed :
      (d : Dict Text Text) (fs : Fields j.Float)
      → HeadersAllowed d
      → HeadersAllowed (add_headers j k d fs)
  unfolding add_headers
  add_headers-HeadersAllowed d no_fields h = h
  add_headers-HeadersAllowed d (field key (text value) fs) h =
      elim (Option-cases (canonical (k.lower key))) [
        | inl e ↦ rw (e, add_headers) (add_headers-HeadersAllowed d fs h)
        | inr (name, e) ↦
            rw (e, add_headers)
              (add_headers-HeadersAllowed (put d name value) fs (
                put-HeadersAllowed d name value
                  (subst (Passed (contains allowed_headers)) e (canonical-Passed (k.lower key))) h))
      ]
  add_headers-HeadersAllowed d (field key null fs) h = add_headers-HeadersAllowed d fs h
  add_headers-HeadersAllowed d (field key (boolean b) fs) h = add_headers-HeadersAllowed d fs h
  add_headers-HeadersAllowed d (field key (integer n) fs) h = add_headers-HeadersAllowed d fs h
  add_headers-HeadersAllowed d (field key (real x) fs) h = add_headers-HeadersAllowed d fs h
  add_headers-HeadersAllowed d (field key (array vs) fs) h = add_headers-HeadersAllowed d fs h
  add_headers-HeadersAllowed d (field key (object gs) fs) h = add_headers-HeadersAllowed d fs h

  content_type-HeadersAllowed :
      (b : Bool)
      → HeadersAllowed (if b then (codes "Content-Type", codes "application/json") ∷ [] else [])
  content_type-HeadersAllowed true n e = elim (Bool-cases (codes "Content-Type" == n)) [
    | inl same ↦
        subst (λ x. contains allowed_headers x ≡ true) (beq_eq (codes "Content-Type") n same) refl
    | inr other ↦ absurd (not_both (sym (rw other refl) ∙ e))
  ]
    where
      not_both : false ≡ true → ⊥
      not_both x = cc
  content_type-HeadersAllowed false n e = cc

  headers_of-HeadersAllowed :
      (b : Option Bytes) (v : Option (Value j.Float)) → HeadersAllowed (headers_of j k b v)
  unfolding headers_of
  headers_of-HeadersAllowed b (some (object fs)) =
      add_headers-HeadersAllowed _ fs (content_type-HeadersAllowed (is_some b))
  headers_of-HeadersAllowed b none = content_type-HeadersAllowed (is_some b)
  headers_of-HeadersAllowed b (some null) = content_type-HeadersAllowed (is_some b)
  headers_of-HeadersAllowed b (some (boolean x)) = content_type-HeadersAllowed (is_some b)
  headers_of-HeadersAllowed b (some (integer n)) = content_type-HeadersAllowed (is_some b)
  headers_of-HeadersAllowed b (some (real x)) = content_type-HeadersAllowed (is_some b)
  headers_of-HeadersAllowed b (some (array vs)) = content_type-HeadersAllowed (is_some b)
  headers_of-HeadersAllowed b (some (text t)) = content_type-HeadersAllowed (is_some b)

  -- Whatever a phone asks for, the proxy makes no request or one with an allowed path behind its
  -- own base URL, the method GET or POST, and no header but Content-Type, Authorization, apikey and
  -- Prefer.
  pub execute-Reaches : (req : Fields j.Float) → Reaches k (execute j k req).asked
  unfolding execute
  execute-Reaches req = elim (Option-cases (method_allowed (field_of req (codes "method")))) [
    | inl e ↦ rw (e, execute) tt
    | inr (method, e) ↦ elim (Option-cases (path_allowed (field_of req (codes "path")))) [
      | inl f ↦ rw (e, execute, f) tt
      | inr (path, f) ↦ elim (Option-cases (data_of j k (field_of req (codes "body")))) [
        | inl g ↦ rw (e, execute, f, g) tt
        | inr (sent, g) ↦
            rw (e, execute, f, g)
              (
                (
                  path,
                  refl,
                  subst (Passed text_path_allowed) f
                      (path_allowed-Passed (field_of req (codes "path"))),
                ),
                subst (Passed (contains allowed_methods)) e
                    (method_allowed-Passed (field_of req (codes "method"))),
                headers_of-HeadersAllowed sent (field_of req (codes "headers")),
              )
      ]
    ]
  ]
