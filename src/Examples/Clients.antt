-- ===== src/Examples/Clients.antt =====
-- The address of a client behind one trusted proxy.
use go_spark.Base.{
  Text, codes, text_eq, ◌≡◌, refl, false, List, [], ◌∷◌, ◌++◌, some, none, trim_space, is_empty,
  split,
}
use go_spark.RateLimit.ClientIp.{
  IpNet, Network, Request, is_trusted_proxy, is_trusted_proxy_ip, client_ip_from_forwarded_for,
  peer, request_ip,
}
use go_spark.RateLimit.Spoofing.{stops, forwarded_ignores, request_ip_own}

-- Addresses are texts that are their own bytes, and a network holds one address.
abbrev pub net : Network
net = record {
  split_host_port = λ t. none;
  parse_ip = λ t. some t;
  ip_string = λ ip. ip;
  contains = λ c ip. text_eq c.ip ip;
}

abbrev proxies : List IpNet
proxies = record { ip = codes "10.0.0.1"; mask = [] } ∷ []

forwarded_ignores_example :
    client_ip_from_forwarded_for net proxies (codes "1.1.1.1" ++ b',' ∷ codes "8.8.8.8,10.0.0.1")
    ≡ client_ip_from_forwarded_for net proxies (codes "8.8.8.8,10.0.0.1")
unfolding trim_space split stops is_trusted_proxy_ip text_eq
forwarded_ignores_example =
    forwarded_ignores net proxies (codes "1.1.1.1") (codes "8.8.8.8,10.0.0.1") refl refl refl refl

abbrev request : Request
request = record {
  remote_addr = codes "8.8.8.8";
  forwarded_for = codes "1.1.1.1";
  email_field = [];
  reset_token = [];
}

request_ip_own_example :
    ((forwarded : Text)
      → is_trusted_proxy net proxies (peer net proxies (trim_space request.remote_addr)) ≡ false
      → request_ip net proxies (record request { forwarded_for = forwarded })
        ≡ request_ip net proxies request)
    × (is_empty (request_ip net proxies request) ≡ false)
request_ip_own_example = request_ip_own net proxies request
