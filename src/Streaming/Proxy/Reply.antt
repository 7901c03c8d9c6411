-- ===== src/Streaming/Proxy/Reply.antt =====
-- The response for a resource: its tag, its status and its content.
use restreamer.Prelude.{
  ℕ, ◌≡◌, ◌≢◌, ◌⊎◌, refl, sym, ap, ◌∙◌, inl, inr, Bool, Bool-cases, [], ◌++◌, Option, none, some,
  true, false, ◌&&◌, Text, codes, text_beq, text_beq_iff, text_eq, is_set, length,
}
use restreamer.Prelude.Http.{
  Header, Response, get, new_response, set_header, get-set_header_self, get-set_header_ne,
}
use restreamer.Streaming.Proxy.{FetchableResource, cache_headers, copy_header, reply}
use restreamer.Streaming.Proxy.Etag.{itoa}
use restreamer.Streaming.Proxy.Decimal.{read_decimal, read_decimal-itoa}

-- The response has the tag of the resource. It is empty, with status 304, if the client has named
-- this tag; otherwise it has the status and the content of the resource, and says how long it is.
abbrev pub IsReply : Header → FetchableResource → Response → Type 0
IsReply request r w =
    (get (codes "Etag") w.header ≡ r.etag)
    × (((get (codes "If-None-Match") request ≡ r.etag) × (w.status ≡ some 304) × (w.body ≡ []))
        ⊎ ((get (codes "If-None-Match") request ≢ r.etag)
            × (w.status ≡ some r.status_code)
            × (w.body ≡ r.content)
            × (read_decimal (get (codes "Content-Length") w.header) ≡ length w.body)))

tag_header :
    (stale : ℕ) (r : FetchableResource) (w : Response)
    → get (codes "Etag") (cache_headers stale r w).header ≡ r.etag
tag_header stale r w =
    get-set_header_ne (codes "Etag") (codes "Cache-Control") _
      (set_header (codes "Etag") r.etag (copy_header r w)) refl
    ∙ get-set_header_self (codes "Etag") r.etag (copy_header r w)

copy_header-rest :
    (r : FetchableResource) (w : Response)
    → ((copy_header r w).status ≡ w.status) × ((copy_header r w).body ≡ w.body)
copy_header-rest r w = elim (Bool-cases (is_set (get (codes "Content-Type") r.header))) [
  | inl e ↦ rw e (refl, refl)
  | inr e ↦ rw e (refl, refl)
]

and_right : (a b : Bool) → (a && b) ≡ true → b ≡ true
and_right true b h = h
and_right false b h = cc

-- A tag that is not empty is named, or it is not.
unnamed :
    (request : Header) (r : FetchableResource)
    → is_set r.etag ≡ true
    → (is_set r.etag && text_beq (get (codes "If-None-Match") request) r.etag) ≡ false
    → get (codes "If-None-Match") request ≢ r.etag
unnamed request r tagged e named =
    both _ _ tagged ((text_beq_iff (get (codes "If-None-Match") request) r.etag).1 named) e
  where
    both : (a b : Bool) → a ≡ true → b ≡ true → (a && b) ≡ false → ⊥
    both true true h k f = cc
    both true false h k f = cc
    both false b h k f = cc

-- The condition for a response without content.
abbrev pub is_named : Header → FetchableResource → Bool
is_named request r = is_set r.etag && text_beq (get (codes "If-None-Match") request) r.etag

pub reply_named :
    (stale : ℕ) (request : Header) (r : FetchableResource)
    → is_named request r ≡ true
    → ((reply stale request r new_response).status ≡ some 304)
      × ((reply stale request r new_response).body ≡ [])
unfolding reply
reply_named stale request r e =
    let (status, body) = copy_header-rest r new_response in
    rw e (
      ap (λ (s : Option ℕ). elim s as (λ x. Option ℕ) [ none ↦ some 304 | some old ↦ some old ])
          status,
      body,
    )

pub reply-IsReply :
    (stale : ℕ) (request : Header) (r : FetchableResource)
    → is_set r.etag ≡ true
    → IsReply request r (reply stale request r new_response)
unfolding reply
reply-IsReply stale request r tagged =
    let (status, body) = copy_header-rest r new_response in
    let content : (copy_header r new_response).body ++ r.content ≡ r.content =
      ap (λ (b : Text). b ++ r.content) body in
    elim (Bool-cases (is_set r.etag && text_beq (get (codes "If-None-Match") request) r.etag)) [
      | inl e ↦ rw e (
        tag_header stale r new_response,
        inl (
          (text_beq_iff (get (codes "If-None-Match") request) r.etag).0
              (and_right (is_set r.etag) _ e),
          ap (λ (s : Option ℕ). elim s as (λ x. Option ℕ) [ none ↦ some 304 | some old ↦ some old ])
              status,
          body,
        ),
      )
      | inr e ↦ rw e (
        get-set_header_ne (codes "Etag") (codes "Content-Length") (itoa (length r.content))
              (cache_headers stale r new_response) refl
            ∙ tag_header stale r new_response,
        inr (
          unnamed request r tagged e,
          ap
              (λ (s : Option ℕ).
                elim (elim s as (λ x. Option ℕ) [ none ↦ some r.status_code | some old ↦ some old ])
                  as (λ x. Option ℕ) [ none ↦ some 200 | some old ↦ some old ])
              status,
          content,
          ap read_decimal (
                get-set_header_self (codes "Content-Length") (itoa (length r.content))
                  (cache_headers stale r new_response))
              ∙ read_decimal-itoa (length r.content)
              ∙ ap length (sym content),
        ),
      )
    ]
