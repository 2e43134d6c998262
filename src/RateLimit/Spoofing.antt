-- ===== src/RateLimit/Spoofing.antt =====
-- Which parts of a request a client can use to pass for another one.
use go_spark.Base.{
  Text, ◌≡◌, refl, inl, inr, Bool, true, false, not, ◌==◌, Option, none, some, List, [], ◌∷◌, ◌++◌,
  reverse, Bool-cases, Option-cases, arith, if◌then◌else◌, trim_space, is_empty, split,
}
use mathlib.Core.List.{reverse-append}
use go_spark.RateLimit.ClientIp.{
  Ip, IpNet, Network, Request, is_trusted_proxy_ip, is_trusted_proxy, walk,
  client_ip_from_forwarded_for, peer, request_ip,
}

split-nonempty : (a : Text) → (w : Text) × (ws : List Text) × (split b',' a ≡ w ∷ ws)
unfolding split
split-nonempty [] = ([], [], refl)
split-nonempty (c ∷ a) = elim (Bool-cases (c == b',')) [
  | inl e ↦ ([], split b',' a, rw e refl)
  | inr e ↦ (let (w, ws, q) = split-nonempty a in (c ∷ w, ws, rw (e, q) refl))
]

split-join : (a b : Text) → split b',' (a ++ b',' ∷ b) ≡ split b',' a ++ split b',' b
unfolding split
split-join [] b = refl
split-join (c ∷ a) b = elim (Bool-cases (c == b',')) [
  | inl e ↦ rw (e, split-join a b) refl
  | inr e ↦ (let (w, ws, q) = split-nonempty a in rw (e, split-join a b, q) refl)
]

module _ (net : Network) (trusted_proxies : List IpNet) where
  abbrev foreign_if : Option Ip → Bool
  foreign_if none = true
  foreign_if (some ip) = not (is_trusted_proxy_ip net trusted_proxies ip)

  -- Whether some entry is not the address of a trusted proxy.
  unfoldable pub stops : List Text → Bool
  stops [] = false
  stops (e ∷ es) =
      let rest = stops es in if foreign_if (net.parse_ip (trim_space e)) then true else rest

  -- What stands behind an entry that is not a trusted proxy is never looked at.
  walk_ignores :
      (near far : List Text) (c : Text)
      → stops near ≡ true
      → walk net trusted_proxies (near ++ far) c ≡ walk net trusted_proxies near c
  unfolding walk stops
  walk_ignores [] far c h = absurd (cc h)
  walk_ignores (e ∷ es) far c h = elim (Option-cases (net.parse_ip (trim_space e))) [
    | inl q ↦ rw q refl
    | inr (ip, q) ↦ elim (Bool-cases (is_trusted_proxy_ip net trusted_proxies ip)) [
      | inl t ↦ rw (q, t) (walk_ignores es far (net.ip_string ip) (rw (q, t) at h))
      | inr t ↦ rw (q, t) refl
    ]
  ]

  -- Entries that a client writes in front of a header do not change the address that is found,
  -- as long as some entry of the header behind them is not a trusted proxy: the last such entry,
  -- which the nearest trusted proxy has added, decides.
  pub forwarded_ignores :
      (spoofed real : Text)
      → trim_space (spoofed ++ b',' ∷ real) ≡ spoofed ++ b',' ∷ real
      → trim_space real ≡ real
      → is_empty real ≡ false
      → stops (reverse (split b',' real)) ≡ true
      → client_ip_from_forwarded_for net trusted_proxies (spoofed ++ b',' ∷ real)
        ≡ client_ip_from_forwarded_for net trusted_proxies real
  unfolding client_ip_from_forwarded_for
  forwarded_ignores spoofed real t t' full h =
      rw
        (
          t,
          t',
          full,
          nonempty spoofed,
          split-join spoofed real,
          reverse-append (split b',' spoofed) (split b',' real),
        )
        (walk_ignores (reverse (split b',' real)) (reverse (split b',' spoofed)) [] h)
    where
      nonempty : (x : Text) → is_empty (x ++ b',' ∷ real) ≡ false
      nonempty [] = refl
      nonempty (c ∷ x) = refl

  ip_cases :
      (r : Request) (f : Text)
      → is_trusted_proxy net trusted_proxies (peer net trusted_proxies (trim_space r.remote_addr))
        ≡ false
      → request_ip net trusted_proxies (record r { forwarded_for = f })
        ≡ request_ip net trusted_proxies r
  unfolding request_ip
  ip_cases r f h = rw h refl

  nonempty_host :
      (remote : Text) (o : Option Text)
      → net.split_host_port remote ≡ o
      → is_empty remote ≡ false
      → is_empty (peer net trusted_proxies remote) ≡ false
  nonempty_host remote none q h = rw q h
  nonempty_host remote (some host) q h = rw q (ground (arith, h))

  -- A peer that is not a trusted proxy is known by its own address, whatever it writes into the
  -- header; and no request goes without an address, so that no key is that of all.
  pub request_ip_own :
      (r : Request)
      → ((forwarded : Text)
          → is_trusted_proxy net trusted_proxies
              (peer net trusted_proxies (trim_space r.remote_addr))
            ≡ false
          → request_ip net trusted_proxies (record r { forwarded_for = forwarded })
            ≡ request_ip net trusted_proxies r)
        × (is_empty (request_ip net trusted_proxies r) ≡ false)
  unfolding request_ip
  request_ip_own r =
      ((λ f h. ip_cases r f h), ground (arith, nonempty_host (trim_space r.remote_addr) _ refl))
