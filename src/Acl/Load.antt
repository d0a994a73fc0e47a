-- ===== src/Acl/Load.antt =====
-- acl.go: the ACL definitions and AddRule. What the code calls of other packages is the record
-- `AclExternals`; a nil map is an empty one.
--   add_acl_rule     AddRule; false stands for an error, which may leave some arguments added
--   Files.load       load, on fuel for the depth of included files
pub mod Files
mod Loaded
pub mod Tests
use redwood_filter.Common.{
  Bool, true, false, ◌||◌, Option, none, some, List, [], ◌∷◌, ◌++◌, if◌then◌else◌, ◌==◌, nat_eq,
  Bytes, codes, bytes_eq,
}
use redwood_filter.Acl.{AclActionRule}
use redwood_filter.Common.GoMap.{GoMap, lookup_or, insert}
use redwood_filter.Common.Int.{ℤ, int_eq}
use redwood_filter.IpRange.{IpMap, no_addresses, add_address}
use redwood_filter.RegexMap.{Regexp}
use redwood_filter.Rule.{SimpleRule, Rule, simple, rule_eq, url_match}
use redwood_filter.Schedule.{WeeklySchedule, parse_weekly_schedule}
use redwood_filter.Url
use redwood_filter.Url.{Externals, UrlMatcher, new_url_matcher}

-- the fields that AddRule and load change
pub record AclDefinitions : Type 0 where
  pub connect_ports : GoMap ℤ (List Bytes)
  pub content_types : GoMap Bytes (List Bytes)
  pub methods : GoMap Bytes (List Bytes)
  pub referers : GoMap Rule (List Bytes)
  pub referer_categories : GoMap Bytes (List Bytes)
  pub status_codes : GoMap ℤ (List Bytes)
  pub urls : Option UrlMatcher
  pub url_tags : GoMap Rule (List Bytes)
  pub user_ips : IpMap
  pub user_names : GoMap Bytes (List Bytes)
  pub server_ips : IpMap
  pub ja3_fingerprints : GoMap Bytes (List Bytes)
  pub times : List (WeeklySchedule × Bytes)
  pub user_agents : List (Regexp × Bytes)
  pub descriptions : GoMap Bytes Bytes
  pub actions : List AclActionRule

abbrev pub no_definitions : AclDefinitions
no_definitions = record {
  connect_ports = [];
  content_types = [];
  methods = [];
  referers = [];
  referer_categories = [];
  status_codes = [];
  urls = none;
  url_tags = [];
  user_ips = no_addresses;
  user_names = [];
  server_ips = no_addresses;
  ja3_fingerprints = [];
  times = [];
  user_agents = [];
  descriptions = [];
  actions = [];
}

-- strconv, regexp, fmt, strings.Fields, time and the file system
pub record AclExternals : Type 0 where
  pub url : Externals
  pub atoi : Bytes → Option ℤ
  pub to_upper : Bytes → Bytes
  pub scan_times : Bytes → Option (ℤ × (ℤ × (ℤ × ℤ)))
  pub fields : Bytes → List Bytes
  pub scan_quoted : Bytes → Option Bytes
  pub read_lines : Bytes → Option (List Bytes)
  pub is_abs : Bytes → Bool
  pub join_dir : Bytes → Bytes → Bytes

-- m[k] = append(m[k], acl), for each key
abbrev pub append_keys : GoMap Bytes (List Bytes) → Bytes → List Bytes → GoMap Bytes (List Bytes)
append_keys m acl [] = m
append_keys m acl (k ∷ ks) = append_keys (insert k (lookup_or k [] m ++ acl ∷ []) m) acl ks

-- strings.Join(args, " ")
abbrev pub join_words : List Bytes → Bytes
join_words [] = []
join_words (w ∷ []) = w
join_words (w ∷ v ∷ ws) = w ++ b' ' ∷ join_words (v ∷ ws)

module _ (x : AclExternals) where
  -- the same for numbers, up to one that is none
  abbrev pub append_numbers :
      GoMap ℤ (List Bytes) → Bytes → List Bytes → GoMap ℤ (List Bytes) × Bool
  append_numbers m acl [] = (m, true)
  append_numbers m acl (k ∷ ks) = elim (x.atoi k) [
    | none ↦ (m, false)
    | some n ↦ append_numbers (insert n (lookup_or n [] m ++ acl ∷ []) m) acl ks
  ]

  abbrev pub append_addresses : IpMap → Bytes → List Bytes → IpMap × Bool
  append_addresses m acl [] = (m, true)
  append_addresses m acl (a ∷ as') =
      elim (add_address x.url.parse_ip x.url.parse_cidr x.url.ip_string m a acl) [
        | none ↦ (m, false)
        | some m' ↦ append_addresses m' acl as'
      ]

  -- a URL fragment goes to the matcher and to the map from rules to ACLs
  abbrev pub append_urls :
      UrlMatcher
      → GoMap Rule (List Bytes)
      → Bytes
      → List Bytes
      → UrlMatcher × GoMap Rule (List Bytes)
  append_urls m tags acl [] = (m, tags)
  append_urls m tags acl (u ∷ us) =
      let r : SimpleRule = record { t = url_match; content = x.url.to_lower u } in
      append_urls (Url.add_rule x.url m r)
        (insert (simple r) (lookup_or (simple r) [] tags ++ acl ∷ []) tags) acl us

  abbrev pub matcher_of : Option UrlMatcher → UrlMatcher
  matcher_of none = new_url_matcher
  matcher_of (some m) = m

  -- the switch of AddRule
  unfoldable pub add_keyword : AclDefinitions → Bytes → Bytes → List Bytes → AclDefinitions × Bool
  add_keyword a acl keyword args =
      if keyword == codes "connect-port"
      then (let (m, ok) = append_numbers a.connect_ports acl args in
          (record a { connect_ports = m }, ok))
      else if keyword == codes "content-type"
      then (record a { content_types = append_keys a.content_types acl args }, true)
      else if keyword == codes "ja3"
      then (record a { ja3_fingerprints = append_keys a.ja3_fingerprints acl args }, true)
      else if keyword == codes "method"
      then (record a { methods = append_keys a.methods acl args }, true)
      else if keyword == codes "referer" || keyword == codes "referrer"
      then (let (m, tags) = append_urls (matcher_of a.urls) a.referers acl args in
          (record a { urls = some m; referers = tags }, true))
      else if keyword == codes "referer-category" || keyword == codes "referrer-category"
      then (
        record a {
          urls = some (matcher_of a.urls);
          referer_categories = append_keys a.referer_categories acl args;
        },
        true,
      )
      else if keyword == codes "server-ip"
      then (let (m, ok) = append_addresses a.server_ips acl args in
          (record a { server_ips = m }, ok))
      else if keyword == codes "http-status"
      then (let (m, ok) = append_numbers a.status_codes acl args in
          (record a { status_codes = m }, ok))
      else if keyword == codes "time"
      then elim (parse_weekly_schedule x.to_upper x.scan_times args) [
        | none ↦ (a, false)
        | some s ↦ (record a { times = a.times ++ (s, acl) ∷ [] }, true)
      ]
      else if keyword == codes "url"
      then (let (m, tags) = append_urls (matcher_of a.urls) a.url_tags acl args in
          (record a { urls = some m; url_tags = tags }, true))
      else if keyword == codes "user-agent"
      then elim (x.url.compile (codes "(?i)" ++ join_words args)) [
        | none ↦ (a, false)
        | some re ↦ (record a { user_agents = a.user_agents ++ (re, acl) ∷ [] }, true)
      ]
      else if keyword == codes "user-ip"
      then (let (m, ok) = append_addresses a.user_ips acl args in (record a { user_ips = m }, ok))
      else if keyword == codes "user-name"
      then (record a { user_names = append_keys a.user_names acl args }, true)
      else (a, false)

  unfoldable pub add_acl_rule : AclDefinitions → Bytes → List Bytes → AclDefinitions × Bool
  add_acl_rule a acl [] = (a, false)
  add_acl_rule a acl (keyword ∷ args) = add_keyword a acl keyword args
