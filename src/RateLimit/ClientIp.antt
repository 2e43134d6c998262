-- ===== src/RateLimit/ClientIp.antt =====
-- The key functions of internal/server/rate_limit.go, and the address of the client they start
-- with.
use go_spark.Base.{
  ℕ, Text, codes, Bool, true, false, not, ◌&&◌, Option, none, some, List, [], ◌∷◌, ◌++◌, reverse,
  take, if◌then◌else◌, trim_space, is_empty, split,
}
use go_spark.Platform.{Platform, Address}

-- The bytes of a parsed address, and a network.
abbrev pub Ip : Type 0
Ip = List ℕ

pub record IpNet : Type 0 where
  pub ip : Ip
  pub mask : List ℕ

-- What the limiter takes from the package net.
pub record Network : Type 0 where
  -- net.SplitHostPort: the host
  pub split_host_port : Text → Option Text
  -- net.ParseIP and IP.String
  pub parse_ip : Text → Option Ip
  pub ip_string : Ip → Text
  -- IPNet.Contains
  pub contains : IpNet → Ip → Bool

-- What the key functions read of a request: the peer, the header X-Forwarded-For, a form field
-- and the reset token of the cookie.
pub record Request : Type 0 where
  pub remote_addr : Text
  pub forwarded_for : Text
  pub email_field : Text
  pub reset_token : Text

module _ (net : Network) (trusted_proxies : List IpNet) where
  abbrev contained : List IpNet → Ip → Bool
  contained [] ip = false
  contained (c ∷ cs) ip = if net.contains c ip then true else contained cs ip

  unfoldable pub is_trusted_proxy_ip : Ip → Bool
  is_trusted_proxy_ip = contained trusted_proxies

  abbrev trusted_if : Option Ip → Bool
  trusted_if none = false
  trusted_if (some ip) = is_trusted_proxy_ip ip

  unfoldable pub is_trusted_proxy : Text → Bool
  is_trusted_proxy host = trusted_if (net.parse_ip host)

  -- The loop over the entries, from the last one; `rest` is what the loop gives further on.
  abbrev hop : Option Ip → (Text → Text) → Text
  hop none rest = []
  hop (some ip) rest = if is_trusted_proxy_ip ip then rest (net.ip_string ip) else net.ip_string ip

  unfoldable pub walk : List Text → Text → Text
  walk [] candidate = candidate
  walk (e ∷ es) candidate = let rest = walk es in hop (net.parse_ip (trim_space e)) rest

  unfoldable pub client_ip_from_forwarded_for : Text → Text
  unfolding walk
  client_ip_from_forwarded_for header =
      let h = trim_space header in if is_empty h then [] else walk (reverse (split b',' h)) []

  abbrev host_or : Text → Option Text → Text
  host_or remote none = remote
  host_or remote (some host) = if is_empty host then remote else host

  abbrev pub peer : Text → Text
  peer remote = host_or remote (net.split_host_port remote)

  unfoldable pub request_ip : Request → Text
  unfolding client_ip_from_forwarded_for is_trusted_proxy
  request_ip r =
      let remote = trim_space r.remote_addr in
      let forwarded = client_ip_from_forwarded_for r.forwarded_for in
      if is_empty remote
      then codes "unknown"
      else if is_trusted_proxy (peer remote) && not (is_empty forwarded)
      then forwarded
      else peer remote

  module _ (p : Platform) where
    -- The first 6 bytes of the digest, in hexadecimal.
    unfoldable pub hash_rate_limit_key : Text → Text
    hash_rate_limit_key key = take 12 (p.sha256_hex key)

    abbrev usable : Option Address → Option Text
    usable none = none
    usable (some a) = if is_empty a.address then none else some (p.to_lower (trim_space a.address))

    unfoldable pub normalized_email_for_rate_limit : Text → Option Text
    normalized_email_for_rate_limit raw =
        let trimmed = trim_space raw in
        if is_empty trimmed then none else usable (p.parse_address trimmed)

    abbrev with_email : Text → Option Text → Text × Text
    with_email ip none = (codes "ip:" ++ ip, codes "ip")
    with_email ip (some email) = (codes "ip:" ++ ip ++ codes "|email:" ++ email, codes "ip_email")

    unfoldable pub rate_limit_key_by_ip_and_email : Request → Text × Text
    unfolding request_ip
    rate_limit_key_by_ip_and_email r =
        with_email (request_ip r) (normalized_email_for_rate_limit r.email_field)

    unfoldable pub rate_limit_key_by_ip_and_reset_token_cookie : Request → Text × Text
    unfolding request_ip
    rate_limit_key_by_ip_and_reset_token_cookie r =
        if is_empty r.reset_token then (codes "ip:" ++ request_ip r, codes "ip") else (
          codes "ip:"
              ++ request_ip r
              ++ codes "|reset_token_hash:"
              ++ hash_rate_limit_key r.reset_token,
          codes "ip_reset_token",
        )

  unfoldable pub rate_limit_key_by_ip : Request → Text × Text
  unfolding request_ip
  rate_limit_key_by_ip r = (codes "ip:" ++ request_ip r, codes "ip")
