-- ===== src/Proxy/Security.antt =====
-- src/llmcut/proxy/security.py: the headers that the proxy passes on, and its warning. `upstream_url`
-- rests on urllib and is left out.
use llmcut.Prelude.{
  String, Bool, true, not, Option, none, some, List, [], ◌∷◌, keep_if, elem, if◌then◌else◌, ◌≡◌,
  refl, Bool-cases, inl, inr, All, ap,
}
use llmcut.World.{World}

abbrev pub hop_by_hop : List String
hop_by_hop =
    "connection" ∷ "keep-alive" ∷ "proxy-authenticate" ∷ "proxy-authorization" ∷ "te" ∷ "trailer"
    ∷ "transfer-encoding" ∷ "upgrade" ∷ "host" ∷ "content-length" ∷ []

abbrev pub passes : World → String × String → Bool
passes w h = not (elem (w.lower h.0) hop_by_hop)

unfoldable pub filtered_headers : World → List (String × String) → List (String × String)
filtered_headers w = keep_if (passes w)

unfoldable pub external_bind_warning : String → Option String
external_bind_warning host =
    if elem host ("127.0.0.1" ∷ "::1" ∷ "localhost" ∷ [])
    then none
    else some "Warning: proxy is externally reachable; use network access controls and TLS."

keep_if-All :
    (p : String × String → Bool) (hs : List (String × String))
    → All (λ h. p h ≡ true) (keep_if p hs)
keep_if-All p [] = tt
keep_if-All p (h ∷ hs) = elim (Bool-cases (p h)) [
  | inl e ↦ rw e (e, keep_if-All p hs)
  | inr e ↦ rw e (keep_if-All p hs)
]

keep_if-All_id :
    (p : String × String → Bool) (hs : List (String × String))
    → All (λ h. p h ≡ true) hs
    → keep_if p hs ≡ hs
keep_if-All_id p [] a = refl
keep_if-All_id p (h ∷ hs) a = rw (a.0) (ap (λ r. h ∷ r) (keep_if-All_id p hs a.1))

-- No header that belongs to one connection is passed on, and what was filtered once is left alone by
-- a second proxy.
filtered_headers_idem :
    (w : World) (hs : List (String × String))
    → All (λ h. passes w h ≡ true) (filtered_headers w hs)
      × (filtered_headers w (filtered_headers w hs) ≡ filtered_headers w hs)
unfolding filtered_headers
filtered_headers_idem w hs = (
  keep_if-All (passes w) hs,
  keep_if-All_id (passes w) (keep_if (passes w) hs) (keep_if-All (passes w) hs),
)
