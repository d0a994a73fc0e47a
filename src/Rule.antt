-- ===== src/Rule.antt =====
-- rule.go and categories.go, the data: rules, weights, categories.
--   RuleType, SimpleRule, Rule      ruleType, simpleRule, and the interface `rule` with its two
--                                   implementations simpleRule and compoundRule
--   Weight, CategoryAction, Category
pub mod Parse
pub mod Ends
pub mod Texts
mod Regex
pub mod Simple
mod Operators
pub mod RoundTrip
mod Nested
pub mod Tests
use redwood_filter.Common.{
  [], ◌++◌, codes, ℕ, ◌≡◌, ◌↔◌, Bool, true, false, ◌&&◌, arith, nat_beq, KeyTest, nat_eq, Bytes,
  bytes_beq, bytes_beq_iff, bytes_eq,
}
use redwood_filter.Common.Int.{ℤ, pos}
use redwood_filter.Common.GoMap.{GoMap}
use redwood_filter.Cuckoo.{CuckooFilter}

pub data RuleType : Type 0 where
  default_rule url_match ip_addr url_regex host_regex domain_regex : RuleType
  path_regex query_regex content_phrase image_hash url_list : RuleType

-- the value of the constant
abbrev pub type_number : RuleType → ℕ
type_number default_rule = 0
type_number url_match = 1
type_number ip_addr = 2
type_number url_regex = 3
type_number host_regex = 4
type_number domain_regex = 5
type_number path_regex = 6
type_number query_regex = 7
type_number content_phrase = 8
type_number image_hash = 9
type_number url_list = 10

pub type_number-injective : (a b : RuleType) → type_number a ≡ type_number b → a ≡ b
type_number-injective a b h = ground arith

pub record SimpleRule : Type 0 where
  pub t : RuleType
  pub content : Bytes

pub data Rule : Type 0 where
  simple : SimpleRule → Rule
  compound : Rule → Bytes → Rule → Rule

abbrev pub rule_beq : Rule → Rule → Bool
rule_beq (simple r) (simple s) =
    nat_beq (type_number r.t) (type_number s.t) && bytes_beq r.content s.content
rule_beq (simple r) (compound l op s) = false
rule_beq (compound l op r) (simple s) = false
rule_beq (compound l op r) (compound l' op' r') =
    rule_beq l l' && (bytes_beq op op' && rule_beq r r')

rule_beq→eq : (r s : Rule) → rule_beq r s ≡ true → r ≡ s
rule_beq→eq (simple r) (simple s) h =
    let e : r.t ≡ s.t = type_number-injective r.t s.t (ground arith) in
    let e' : r.content ≡ s.content = (bytes_beq_iff _ _).0 (ground arith) in
    λ i. simple (record { t = e i; content = e' i })
rule_beq→eq (simple r) (compound l op s) h = cc
rule_beq→eq (compound l op r) (simple s) h = cc
rule_beq→eq (compound l op r) (compound l' op' r') h =
    ground (arith, rule_beq→eq l l', rule_beq→eq r r', bytes_beq_iff op op')

rule_beq_refl : (r : Rule) → rule_beq r r ≡ true
rule_beq_refl (simple r) = ground (arith, bytes_beq_iff r.content r.content)
rule_beq_refl (compound l op r) =
    ground (arith, rule_beq_refl l, rule_beq_refl r, bytes_beq_iff op op)

pub rule_beq_iff : (r s : Rule) → (rule_beq r s ≡ true) ↔ (r ≡ s)
rule_beq_iff r s = (rule_beq→eq r s, λ e. rw e (rule_beq_refl s))

instance abbrev pub rule_eq : KeyTest Rule
rule_eq = record { agree = rule_beq; agree_iff = rule_beq_iff }

pub record Weight : Type 0 where
  pub points : ℤ
  pub max_points : ℤ

abbrev pub no_weight : Weight
no_weight = record { points = pos 0; max_points = pos 0 }

pub data CategoryAction : Type 0 where
  block ignore allow acl : CategoryAction

pub record Category : Type 0 where
  pub name : Bytes
  pub description : Bytes
  pub action : CategoryAction
  pub weights : GoMap Rule Weight
  pub url_lists : GoMap Bytes CuckooFilter
  pub invisible : Bool

-- The method `String` of simpleRule. The suffix of a regular expression is the inner switch.
abbrev regex_suffix : RuleType → Bytes
regex_suffix t = elim t [
  | host_regex ↦ codes "h"
  | path_regex ↦ codes "p"
  | query_regex ↦ codes "q"
  | domain_regex ↦ codes "d"
  | _ ↦ []
]

unfoldable pub simple_string : SimpleRule → Bytes
simple_string r =
    let regex : Bytes = codes "/" ++ r.content ++ codes "/" ++ regex_suffix r.t in
    elim r.t [
      | default_rule ↦ codes "default"
      | url_match ↦ r.content
      | ip_addr ↦ codes "ip:" ++ r.content
      | content_phrase ↦ codes "<" ++ r.content ++ codes ">"
      | image_hash ↦ codes "%" ++ r.content
      | url_list ↦ codes "urllist " ++ r.content
      | _ ↦ regex
    ]

abbrev pub in_parentheses : Rule → Bytes → Bytes
in_parentheses (simple r) s = s
in_parentheses (compound l op r) s = codes "(" ++ s ++ codes ")"

-- the method `String` of a rule, with parenthesesIfCompound
unfoldable pub rule_string : Rule → Bytes
unfolding simple_string
rule_string (simple r) = simple_string r
rule_string (compound l op r) =
    in_parentheses l (rule_string l)
    ++ codes " "
    ++ op
    ++ codes " "
    ++ in_parentheses r (rule_string r)
