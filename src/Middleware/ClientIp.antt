-- ===== src/Middleware/ClientIp.antt =====
-- The client's address behind trusted proxies (internal/middleware/middleware.go). Go's `net`
-- package, which parses addresses and networks, is the parameter `Net`.
pub mod Forwarded
use sub_share_go.Common.{
  ℕ, List, [], ◌∷◌, Option, none, some, Bool, true, false, ◌≡◌, ◌&&◌, ◌||◌, not, reverse,
  if◌then◌else◌,
}
use sub_share_go.Strings.{Text, codes, is_empty, trim_space, split}

pub record Net : Type 1 where
  pub Ip : Type 0
  pub Network : Type 0
  -- `net.ParseIP`, `none` for nil
  pub parse_ip : Text → Option Ip
  -- the empty text is no address
  pub parse_ip-empty : parse_ip [] ≡ none
  -- `network.Contains`
  pub includes : Network → Ip → Bool
  -- the host of `net.SplitHostPort`, `none` for an error
  pub split_host : Text → Option Text

-- What the code reads of a request: the peer's address and two headers by `Header.Get`.
pub record Request : Type 0 where
  pub remote_addr : Text
  pub x_forwarded_for : Text
  pub x_real_ip : Text

module _ (n : Net) where
  open n use {Ip, Network, parse_ip, includes, split_host}

  unfoldable pub ip_in_networks : Ip → List Network → Bool
  ip_in_networks ip [] = false
  ip_in_networks ip (network ∷ networks) = includes network ip || ip_in_networks ip networks

  unfoldable pub remote_host : Request → Text
  remote_host r = elim (split_host r.remote_addr) [ none ↦ r.remote_addr | some host ↦ host ]

  unfoldable pub trusted_proxy : Request → List Network → Bool
  trusted_proxy r networks = elim (parse_ip (trim_space (remote_host r))) [
    | none ↦ false
    | some ip ↦ ip_in_networks ip networks
  ]

  -- the loop over X-Forwarded-For, its parts given from the right
  unfoldable pub walk : List Text → List Network → Option Text
  walk [] networks = none
  walk (part ∷ parts) networks = elim (parse_ip (trim_space part)) [
    | none ↦ none
    | some ip ↦ elim (ip_in_networks ip networks) [
      | true ↦ walk parts networks
      | false ↦ some (trim_space part)
    ]
  ]

  unfoldable pub real_ip : Request → Text
  real_ip r = elim (parse_ip (trim_space r.x_real_ip)) [
    | none ↦ []
    | some ip ↦ trim_space r.x_real_ip
  ]

  unfoldable pub forwarded_client_ip : Request → List Network → Text
  forwarded_client_ip r networks =
      if is_empty r.x_forwarded_for
      then real_ip r
      else elim (walk (reverse (split b',' r.x_forwarded_for)) networks) [
        | none ↦ real_ip r
        | some candidate ↦ candidate
      ]

  unfoldable pub client_ip : Request → List Network → Text
  client_ip r networks =
      let forwarded = forwarded_client_ip r networks in
      if trusted_proxy r networks && not (is_empty forwarded)
      then forwarded
      else trim_space (remote_host r)
