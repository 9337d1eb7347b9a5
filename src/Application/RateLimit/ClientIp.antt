-- ===== src/Application/RateLimit/ClientIp.antt =====
-- internal/application/rate_limit.go: the address that a request is limited by. Addresses, prefixes and
-- what `net` and `net/netip` do with them are parameters; `some` is a valid address.
use Prim.Native.Char.{code}
use Prim.Native.String.{◌++◌ as ◌<>◌}
use mathlib.Core.Option
use mathlib.Core.List.{append_assoc}
use text.Mathlib.TextLemmas.{nil-append, cons-append}
use ferventio_backend.Base.{
  ◌≡◌, refl, ap, ◌∙◌, String, Bool, true, false, ◌||◌, inl, inr, Option, none, some, List, [], ◌∷◌,
  ◌++◌, eqb, if◌then◌else◌, Option-cases, ◌==◌,
}
use ferventio_backend.Base.Text.{trim_space, trim_by, split_at, split_at-append}

module _ {Address Prefix : Type 0} (split_host_port : String → Option String)
    (parse_addr : String → Option Address) (unmap : Address → Address)
    (contains : Prefix → Address → Bool) (show : Address → String) where
  abbrev host_of : String → String
  host_of raw = elim (split_host_port raw) [ none ↦ raw | some host ↦ host ]

  unfoldable pub parse_request_ip : String → Option Address
  parse_request_ip raw =
      if trim_space raw == ""
      then none
      else Option.map unmap (
          parse_addr
            (trim_by (λ c. eqb (code c) 0x5b || eqb (code c) 0x5d) (host_of (trim_space raw))))

  unfoldable pub ip_in_prefixes : Address → List Prefix → Bool
  ip_in_prefixes address [] = false
  ip_in_prefixes address (p ∷ ps) =
      let rest = ip_in_prefixes address ps in if contains p address then true else rest

  -- The valid addresses of a header.
  unfoldable pub forwarded_chain : List String → List Address
  forwarded_chain [] = []
  forwarded_chain (raw ∷ raws) = elim (parse_request_ip (trim_space raw)) [
    | none ↦ forwarded_chain raws
    | some candidate ↦ candidate ∷ forwarded_chain raws
  ]

  -- The loop over the chain from its end.
  unfoldable pub last_untrusted : List Prefix → List Address → Option Address
  last_untrusted trusted [] = none
  last_untrusted trusted (a ∷ rest) = elim (last_untrusted trusted rest) [
    | none ↦ if ip_in_prefixes a trusted then none else some a
    | some b ↦ some b
  ]

  abbrev first_of : Address → List Address → Address
  first_of remote [] = remote
  first_of remote (a ∷ rest) = a

  -- The address that the loop ends at, or the first of the chain.
  abbrev client_of : Address → List Address → Option Address → Address
  client_of remote chain none = first_of remote chain
  client_of remote chain (some candidate) = candidate

  unfoldable pub request_client_ip : String → String → List Prefix → String
  request_client_ip remote_addr forwarded_for trusted = elim (parse_request_ip remote_addr) [
    | none ↦ "unknown"
    | some remote ↦
        let chain = forwarded_chain (split_at "," forwarded_for) ++ (remote ∷ []) in
        if ip_in_prefixes remote trusted
        then show (client_of remote chain (last_untrusted trusted chain))
        else show remote
  ]

  forwarded_chain-append :
      (xs ys : List String) → forwarded_chain (xs ++ ys) ≡ forwarded_chain xs ++ forwarded_chain ys
  unfolding forwarded_chain
  forwarded_chain-append [] ys = refl
  forwarded_chain-append (x ∷ xs) ys = elim (Option-cases (parse_request_ip (trim_space x))) [
    | inl e ↦ rw (forwarded_chain, e) (forwarded_chain-append xs ys)
    | inr (a, e) ↦ rw (forwarded_chain, e, forwarded_chain-append xs ys)
  ]

  -- What stands before an untrusted address does not matter.
  last_untrusted-append :
      (trusted : List Prefix) (xs ys : List Address) (b : Address)
      → last_untrusted trusted ys ≡ some b
      → last_untrusted trusted (xs ++ ys) ≡ some b
  unfolding last_untrusted
  last_untrusted-append trusted [] ys b h = h
  last_untrusted-append trusted (a ∷ rest) ys b h = rw (last_untrusted-append trusted rest ys b h)

  -- An untrusted address is found, whatever follows it.
  last_untrusted-some :
      (trusted : List Prefix) (xs ys : List Address) (b : Address)
      → last_untrusted trusted xs ≡ some b
      → (c : Address) × (last_untrusted trusted (xs ++ ys) ≡ some c)
  unfolding last_untrusted
  last_untrusted-some trusted [] ys b h = cc
  last_untrusted-some trusted (a ∷ rest) ys b h =
      elim (Option-cases (last_untrusted trusted rest)) [
        | inr (d, e) ↦ let (c, q) = last_untrusted-some trusted rest ys d e in (c, rw q)
        | inl e ↦ elim (Option-cases (last_untrusted trusted (rest ++ ys))) [
          | inr (c, q) ↦ (c, rw q)
          | inl q ↦ (b, rw q (rw (last_untrusted, e) at h))
        ]
      ]

  joined : (forged real : String) → forged <> ("," <> real) ≡ forged <> String.◌∷◌ "," real
  joined forged real =
      ap (λ x. forged <> x) (cons-append "," "" real ∙ ap (λ x. String.◌∷◌ "," x) (nil-append real))

  forged_chain :
      (forged real : String)
      → forwarded_chain (split_at "," (forged <> ("," <> real)))
        ≡ forwarded_chain (split_at "," forged) ++ forwarded_chain (split_at "," real)
  forged_chain forged real =
      rw (joined forged real, split_at-append "," forged real)
        (forwarded_chain-append (split_at "," forged) (split_at "," real))

  -- If an address of the forwarding header `real` is not of a trusted proxy, then what a client puts
  -- before `real` in the header does not change the address that the request is limited by.
  pub forged_forwarded_for :
      (remote_addr forged real : String) (trusted : List Prefix) (hop : Address)
      → last_untrusted trusted (forwarded_chain (split_at "," real)) ≡ some hop
      → request_client_ip remote_addr (forged <> ("," <> real)) trusted
        ≡ request_client_ip remote_addr real trusted
  unfolding request_client_ip
  forged_forwarded_for remote_addr forged real trusted hop h =
      elim (Option-cases (parse_request_ip remote_addr)) [
        | inl e ↦ rw (request_client_ip, e)
        | inr (remote, e) ↦
            let own = forwarded_chain (split_at "," real) in
            let (c, q) = last_untrusted-some trusted own (remote ∷ []) hop h in
            let spoofed = forwarded_chain (split_at "," forged) in
            rw (
              request_client_ip,
              e,
              forged_chain forged real,
              append_assoc spoofed own (remote ∷ []),
              last_untrusted-append trusted spoofed (own ++ (remote ∷ [])) c q,
              q,
            )
      ]
