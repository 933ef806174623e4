-- ===== src/Tests/Traffic.antt =====
-- Requests to a limiter of two in a window, a chain of proxies, and paths for the log.
use sub_share_go.Common.{
  ℕ, List, [], ◌∷◌, true, ◌≡◌, ◌≤◌, ◌<◌, ◌-◌, ◌↔◌, refl, arith, length, cons-ne-nil, text, text_eq,
}
use sub_share_go.Strings.{Text, codes, trim_space, join, split}
use sub_share_go.Strings.Split.{split-Lacks}
use sub_share_go.Middleware.RateLimiter.{RateLimiter, new_rate_limiter, allow, recent}
use sub_share_go.Middleware.RateLimiter.Window.{allow_iff, within}
use sub_share_go.Table.{lookup}
use sub_share_go.Middleware.RateLimiter.Capacity.{IsBounded, allow-IsBounded}
use sub_share_go.Middleware.RateLimiter.Trace.{grants, window_limit}
use sub_share_go.Middleware.ClientIp.{
  Request, client_ip, trusted_proxy, remote_host, ip_in_networks,
}
use sub_share_go.Middleware.ClientIp.Forwarded.{client_ip-hops}
use sub_share_go.Middleware.LogPath.{
  IsRedacted, behind_first, sanitize_log_path, sanitize_log_path-IsRedacted,
}
use sub_share_go.Tests.Fixtures.{net}

abbrev peer : Text
peer = codes "10.0.0.9"

abbrev two_in_window : RateLimiter
two_in_window = new_rate_limiter 2 100

abbrev busy : RateLimiter
busy = record { attempts = (peer, 900 ∷ 950 ∷ []) ∷ []; limit = 2; window = 100; max_peers = 1 }

abbrev burst : List (ℕ × Text)
burst = (1000, peer) ∷ (1001, peer) ∷ (1002, peer) ∷ (1150, peer) ∷ []

window_limit_example : length (recent (1150 - 100) (grants peer (new_rate_limiter 2 100) burst)) ≤ 2
window_limit_example =
    window_limit peer 2 100 1150 burst
      (omega arith, (omega arith, (omega arith, (omega arith, omega arith)))) (omega arith)

allow_iff_example : ((allow 1000 peer busy).0 ≡ true) ↔ (within 1000 100 (900 ∷ 950 ∷ []) < 2)
unfolding lookup text_eq
allow_iff_example = allow_iff 1000 peer busy (omega arith)

busy-IsBounded : IsBounded busy
busy-IsBounded = record { room = omega arith; fits = omega arith; named = (cons-ne-nil _ _, tt) }

allow-IsBounded_example : IsBounded (allow 2000 (codes "10.0.0.8") busy).1
allow-IsBounded_example =
    allow-IsBounded 2000 (codes "10.0.0.8") busy (cons-ne-nil _ _) busy-IsBounded

-- the peer and the last hop are proxies, the first hop is forged
abbrev forwarded : Request
forwarded = record {
  remote_addr = codes "p1";
  x_forwarded_for = codes "fake,client,p2";
  x_real_ip = [];
}

client_ip-hops_example : client_ip net forwarded (codes "p1" ∷ codes "p2" ∷ []) ≡ codes "client"
unfolding trusted_proxy remote_host ip_in_networks trim_space text_eq join split
client_ip-hops_example =
    client_ip-hops net (codes "p1" ∷ codes "p2" ∷ []) forwarded (codes "fake" ∷ [])
      (codes "p2" ∷ []) (codes "client") (codes "client") refl refl
      (split-Lacks b',' forwarded.x_forwarded_for) refl refl ((codes "p2", refl, refl), tt)

sanitize_log_path-IsRedacted_example :
    IsRedacted (behind_first (split b'/' (sanitize_log_path (codes "/sub/secret/hwid/x"))))
    × (length (split b'/' (sanitize_log_path (codes "/sub/secret/hwid/x")))
        ≡ length (split b'/' (codes "/sub/secret/hwid/x")))
sanitize_log_path-IsRedacted_example = sanitize_log_path-IsRedacted (codes "/sub/secret/hwid/x")
