-- ===== src/Middleware/ClientIp/Forwarded.antt =====
-- A caller behind the proxies cannot choose its address.
use mathlib.Core.List.{reverse-append}
use sub_share_go.Common.{
  List, [], ◌∷◌, ◌++◌, reverse, ◌≡◌, ◌≢◌, some, true, false, arith, All, All-reverse, append_assoc,
  ◌∙◌, cons-ne-nil, append-ne-nil, ap, refl,
}
use sub_share_go.Strings.{Text, trim_space, join}
use sub_share_go.Strings.Trim.{is_empty_test, trim_space-nil}
use sub_share_go.Strings.Split.{Lacks, split-join, join-ne-nil}
use sub_share_go.Middleware.ClientIp.{
  Net, Request, ip_in_networks, trusted_proxy, walk, forwarded_client_ip, client_ip,
}

module _ (n : Net) (networks : List n.Network) where
  -- a part of the header that is the address of a trusted proxy
  abbrev pub IsProxy : Text → Type 0
  IsProxy part =
      (ip : n.Ip) × (n.parse_ip (trim_space part) ≡ some ip) × (ip_in_networks n ip networks ≡ true)

  walk-proxies :
      (proxies rest : List Text)
      → All IsProxy proxies
      → walk n (proxies ++ rest) networks ≡ walk n rest networks
  unfolding walk
  walk-proxies [] rest h = refl
  walk-proxies (p ∷ ps) rest (h, hs) = ground (arith, walk-proxies ps rest hs)

  walk_client :
      (part : Text) (ip : n.Ip) (rest : List Text)
      → n.parse_ip (trim_space part) ≡ some ip
      → ip_in_networks n ip networks ≡ false
      → walk n (part ∷ rest) networks ≡ some (trim_space part)
  unfolding walk
  walk_client part ip rest parsed outside = ground arith

  walk_hops :
      (left proxies : List Text) (part : Text) (ip : n.Ip)
      → n.parse_ip (trim_space part) ≡ some ip
      → ip_in_networks n ip networks ≡ false
      → All IsProxy proxies
      → walk n (reverse (left ++ part ∷ proxies)) networks ≡ some (trim_space part)
  walk_hops left proxies part ip parsed outside hops =
      rw (reverse-append left (part ∷ proxies), reverse-append (part ∷ []) proxies, append_assoc)
        (walk-proxies (reverse proxies) (part ∷ reverse left) (All-reverse IsProxy proxies hops)
          ∙ walk_client part ip (reverse left) parsed outside)

  parsed-ne-nil : (s : Text) (ip : n.Ip) → n.parse_ip s ≡ some ip → s ≢ []
  parsed-ne-nil s ip parsed e = cc (ap n.parse_ip e, n.parse_ip-empty)

  forwarded-hops :
      (r : Request) (left proxies : List Text) (part : Text) (ip : n.Ip)
      → r.x_forwarded_for ≡ join b',' (left ++ part ∷ proxies)
      → All (Lacks b',') (left ++ part ∷ proxies)
      → n.parse_ip (trim_space part) ≡ some ip
      → ip_in_networks n ip networks ≡ false
      → All IsProxy proxies
      → forwarded_client_ip n r networks ≡ trim_space part
  unfolding forwarded_client_ip
  forwarded-hops r left proxies part ip header clean parsed outside hops =
      let present =
        λ (e : part ≡ []). parsed-ne-nil (trim_space part) ip parsed (rw e trim_space-nil) in
      rw (
        header,
        is_empty_test _ (join-ne-nil b',' left proxies part present),
        split-join b',' _ (append-ne-nil left _ (cons-ne-nil part proxies)) clean,
        walk_hops left proxies part ip parsed outside hops,
      )

  -- Behind a trusted peer, the address is the rightmost hop of X-Forwarded-For that is no trusted
  -- proxy, whatever stands left of it: the client wrote that, and cannot choose its address.
  pub client_ip-hops :
      (r : Request) (left proxies : List Text) (part : Text) (ip : n.Ip)
      → trusted_proxy n r networks ≡ true
      → r.x_forwarded_for ≡ join b',' (left ++ part ∷ proxies)
      → All (Lacks b',') (left ++ part ∷ proxies)
      → n.parse_ip (trim_space part) ≡ some ip
      → ip_in_networks n ip networks ≡ false
      → All IsProxy proxies
      → client_ip n r networks ≡ trim_space part
  unfolding client_ip
  client_ip-hops r left proxies part ip peer header clean parsed outside hops =
      let forwarded = forwarded-hops r left proxies part ip header clean parsed outside hops in
      let present = is_empty_test _ (parsed-ne-nil (trim_space part) ip parsed) in
      rw (forwarded, peer, present)
