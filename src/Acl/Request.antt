-- ===== src/Acl/Request.antt =====
-- acl.go, requestACLs: the ACLs of a request. Its parts, in the order of the source, are lists of
-- names that are set one after another; `none` is a lookup of an address that panics, or a loop of
-- MatchingRules cut short. Parameters are the standard library's functions, the groups of the
-- authenticator, the scores of the configuration's categories for a URL, the time and what the
-- scripts add.
mod Added
mod Tests
use redwood_filter.Common.{
  ℕ, Bool, not, Option, none, some, List, [], ◌∷◌, ◌++◌, if◌then◌else◌, ◌==◌, nat_eq, Bytes, codes,
  bytes_eq, ◌>>=◌,
}
use redwood_filter.Acl.{AclSet}
use redwood_filter.Acl.Load.{AclDefinitions, AclExternals}
use redwood_filter.Acl.Response.{add_names}
use redwood_filter.Common.GoMap.{GoMap, lookup_or, keys}
use redwood_filter.Common.Int.{ℤ, pos, int_eq, ltb_ℤ}
use redwood_filter.IpRange
use redwood_filter.IpRange.{IpMap}
use redwood_filter.RegexMap.{Regexp}
use redwood_filter.Rule.{Rule, rule_eq}
use redwood_filter.Schedule.{WeeklySchedule, contains_time}
use redwood_filter.Url.{Url, UrlMatcher}
use redwood_filter.Url.Matching.{matching_rules}

pub record Request : Type 0 where
  pub remote_addr : Bytes
  pub method : Bytes
  pub host : Bytes
  pub url : Url
  pub referer : Bytes
  pub user_agent : Bytes
  pub fingerprint : Option Bytes

pub record RequestExternals : Type 0 where
  pub acl : AclExternals
  pub split_host_port : Bytes → Option (Bytes × Bytes)
  pub parse_url : Bytes → Option Url
  pub device_groups : Bytes → List Bytes
  pub category_scores : Url → GoMap Bytes ℤ
  pub day : ℕ
  pub hour : ℤ
  pub minute : ℤ
  pub scripts : Request → Bytes → List Bytes

abbrev pub is_nothing : Bytes → Bool
is_nothing s = s == []

-- the names of each key, in turn
abbrev pub names_of_rules : GoMap Rule (List Bytes) → List Rule → List Bytes
names_of_rules tags [] = []
names_of_rules tags (r ∷ rs) = lookup_or r [] tags ++ names_of_rules tags rs

-- the names of each category with a positive score
abbrev pub names_of_scores : GoMap Bytes (List Bytes) → GoMap Bytes ℤ → List Bytes
names_of_scores categories [] = []
names_of_scores categories ((c, score) ∷ scores) =
    let rest = names_of_scores categories scores in
    if ltb_ℤ (pos 0) score then lookup_or c [] categories ++ rest else rest

abbrev pub names_of_agents : Bytes → List (Regexp × Bytes) → List Bytes
names_of_agents agent [] = []
names_of_agents agent ((re, acl) ∷ agents) =
    let rest = names_of_agents agent agents in if re agent then acl ∷ rest else rest

module _ (x : RequestExternals) where
  abbrev pub names_of_times : List (WeeklySchedule × Bytes) → List Bytes
  names_of_times [] = []
  names_of_times ((s, acl) ∷ times) =
      let rest = names_of_times times in
      if contains_time s x.day x.hour x.minute then acl ∷ rest else rest

  -- the names of an address, if the text is one
  abbrev pub names_of_address : IpMap → Bytes → Option (List Bytes)
  names_of_address m s = elim (x.acl.url.parse_ip s) [
    | none ↦ some []
    | some ip ↦ IpRange.matches x.acl.url.parse_ip x.acl.url.parse_cidr x.acl.url.ip_string m ip
  ]

  abbrev pub names_of_remote : IpMap → Option (Bytes × Bytes) → Option (List Bytes)
  names_of_remote m none = some []
  names_of_remote m (some (host, port)) = names_of_address m host

  -- the host without its port, if it has one
  abbrev pub server_of : Bytes → Option (Bytes × Bytes) → Bytes
  server_of s none = s
  server_of s (some (host, port)) = host

  abbrev pub port_of : Option (Bytes × Bytes) → ℤ
  port_of none = pos 443
  port_of (some (host, port)) = elim (x.acl.atoi port) [ none ↦ pos 443 | some p ↦ p ]

  abbrev pub names_of_user : AclDefinitions → Bytes → List Bytes
  names_of_user a user =
      if not (is_nothing user) then lookup_or user [] a.user_names ++ x.device_groups user else []

  abbrev pub names_of_port : AclDefinitions → Request → List Bytes
  names_of_port a r =
      if r.method == codes "CONNECT"
      then lookup_or (port_of (x.split_host_port r.host)) [] a.connect_ports
      else []

  abbrev pub names_of_referer_url :
      GoMap Rule (List Bytes)
      → GoMap Bytes (List Bytes)
      → UrlMatcher
      → Option Url
      → Option (List Bytes)
  names_of_referer_url referers categories m none = some []
  names_of_referer_url referers categories m (some ref) = do
    matched ← matching_rules x.acl.url m ref
    some (
        names_of_rules referers (keys matched)
        ++ names_of_scores categories (x.category_scores ref))

  -- the part on the URL and on the referer, with the maps from rules and categories to ACLs
  unfoldable pub names_of_urls :
      GoMap Rule (List Bytes)
      → GoMap Rule (List Bytes)
      → GoMap Bytes (List Bytes)
      → Request
      → Option UrlMatcher
      → Option (List Bytes)
  names_of_urls tags referers categories r none = some []
  names_of_urls tags referers categories r (some m) = do
    matched ← matching_rules x.acl.url m r.url
    let by_referer = names_of_referer_url referers categories m (x.parse_url r.referer)
    more ← if not (is_nothing r.referer) then by_referer else some []
    some (names_of_rules tags (keys matched) ++ more)

  abbrev pub names_of_fingerprint : GoMap Bytes (List Bytes) → Option Bytes → List Bytes
  names_of_fingerprint prints none = []
  names_of_fingerprint prints (some f) = lookup_or f [] prints

  unfoldable pub request_acls : AclDefinitions → Request → Bytes → Option AclSet
  request_acls a r user = do
    by_address ← names_of_remote a.user_ips (x.split_host_port r.remote_addr)
    let by_user = add_names (add_names [] by_address) (names_of_user a user)
    let by_method = add_names by_user (lookup_or r.method [] a.methods)
    let by_port = add_names by_method (names_of_port a r)
    let by_time = add_names by_port (names_of_times a.times)
    by_url ← names_of_urls a.url_tags a.referers a.referer_categories r a.urls
    by_server ← names_of_address a.server_ips (server_of r.url.host (x.split_host_port r.url.host))
    let agents =
        if not (is_nothing r.user_agent) then names_of_agents r.user_agent a.user_agents else []
    let by_agent = add_names (add_names (add_names by_time by_url) by_server) agents
    some (
        add_names (add_names by_agent (names_of_fingerprint a.ja3_fingerprints r.fingerprint))
          (x.scripts r user))
