-- ===== src/Tests/Policies.antt =====
-- SPF on records of the source's own tests.
use vulos_relay.Base.{
  ℕ, ◌+◌, ◌/◌, ◌^◌, ◌-◌, ◌≤◌, ◌<◌, ◌≡◌, ◌⊎◌, refl, none, some, [], ◌∷◌, Bytes, bytes_eq, bytes_beq,
  codes, is_blank, ◌==◌, arith,
}
use vulos_relay.Base.Dict.{get}
use vulos_relay.Base.Text
use vulos_relay.Gateway.Spf.Address
use vulos_relay.Gateway.Spf.Address.{IpAddr, v4, parse_ipv4, parse_ipv6, ipv4_in_cidr}
use vulos_relay.Gateway.Spf.Prefix.{ipv4_in_cidr_lem}
use vulos_relay.Gateway.Spf.Record
use vulos_relay.Gateway.Spf.Record.{Mechanism, ip4, all, a, ParsedRecord, parse_record}
use vulos_relay.Gateway.Spf.Wellformed.{IsWellformedRecord, parse_record-IsWellformed}
use vulos_relay.Gateway.Spf.Verdict
use vulos_relay.Gateway.Spf.Verdict.{perm_error}
use vulos_relay.Gateway.Spf.Evaluator
use vulos_relay.Gateway.Spf.Evaluator.{SpfResolver}
use vulos_relay.Gateway.Spf.Check.{check_host, check_host_at, fresh}
use vulos_relay.Gateway.Spf.Memory
use vulos_relay.Gateway.Spf.Memory.{InMemorySpfResolver, resolver}
use vulos_relay.Gateway.Spf.Policy.{policy}
use vulos_relay.Gateway.Spf.Limits.{empty_answer}
use vulos_relay.Gateway.Spf.Amplification.{queries_bounded, voids_bounded}
use vulos_relay.Gateway.Spf.Refinement.{check_host_refines}

four_parts : parse_ipv4 (codes "203.0.113.9") ≡ some 3_405_803_785
unfolding Address.parse_ipv4 Address.read_ipv4_addr Address.read_octet Address.read_number
    Address.read_digits
four_parts = refl

no_octal : parse_ipv4 (codes "203.00.113.9") ≡ none
unfolding Address.parse_ipv4 Address.read_ipv4_addr Address.read_octet Address.read_number
    Address.read_digits
no_octal = refl

six : parse_ipv6 (codes "2001:db8::1") ≡ some 0x20010db8000000000000000000000001
unfolding Address.parse_ipv6 Address.read_ipv6_addr Address.read_groups Address.read_group
    Address.read_tail Address.read_ipv4_addr Address.read_octet Address.read_number
    Address.read_digits
six = refl

embedded : parse_ipv6 (codes "::ffff:1.2.3.4") ≡ some 0xffff01020304
unfolding Address.parse_ipv6 Address.read_ipv6_addr Address.read_groups Address.read_group
    Address.read_tail Address.read_ipv4_addr Address.read_octet Address.read_number
    Address.read_digits
embedded = refl

spaces : Text.split_whitespace (codes "  v=spf1  -all ") ≡ codes "v=spf1" ∷ codes "-all" ∷ []
unfolding Text.split_whitespace Text.chars Text.words_of is_blank
spaces = refl

abbrev policy_text : Bytes
policy_text = codes "v=spf1 ip4:203.0.113.0/24 a:x.org/16 -all redirect=y.org"

abbrev policy_record : ParsedRecord
policy_record = record {
  mechanisms =
      (Record.pass, ip4 3_405_803_776 24)
      ∷ (Record.pass, a (some (codes "x.org")) 16 128)
      ∷ (Record.fail, all)
      ∷ [];
  redirect = some (codes "y.org");
}

parses : parse_record policy_text ≡ some policy_record
unfolding Record.parse_record Record.parse_terms Record.parse_modifier Record.parse_mechanism
    Record.parse_keyword Record.parse_ip4_cidr Record.parse_domain_spec Record.parse_dual_cidr
    Record.parse_cidrs Record.after_colon Text.split_whitespace Text.chars Text.words_of is_blank
    Text.split_once Text.break Text.to_ascii_lowercase Text.to_lower Text.is_empty
    Text.eq_ignore_ascii_case Text.strip_prefix Text.parse_u8 Text.u8_digits bytes_beq
    Address.parse_ipv4 Address.read_ipv4_addr Address.read_octet Address.read_number
    Address.read_digits
parses = refl

parse_record-IsWellformed_example : IsWellformedRecord policy_record
parse_record-IsWellformed_example = parse_record-IsWellformed policy_text policy_record parses

ipv4_in_cidr_lem_example :
    ipv4_in_cidr 3_405_803_785 3_405_803_776 24
    ≡ (3_405_803_785 / 2 ^ (32 - 24) == 3_405_803_776 / 2 ^ (32 - 24))
ipv4_in_cidr_lem_example =
    ipv4_in_cidr_lem 3_405_803_785 3_405_803_776 24 (omega arith) (omega arith) (omega arith)

-- A domain that includes another, with an address of its own.
abbrev table : InMemorySpfResolver
table = record {
  txt =
      (codes "top.org", codes "v=spf1 include:helper.org a -all" ∷ [])
      ∷ (codes "helper.org", codes "v=spf1 ip4:203.0.113.0/24 -all" ∷ [])
      ∷ [];
  a = (codes "top.org", 16_909_060 ∷ []) ∷ [];
  aaaa = [];
  mx = [];
  failing = [];
}

abbrev dns : SpfResolver (Unit {0})
dns = record {
  lookup_txt = λ name w. (Memory.answer table table.txt name, w);
  lookup_a = λ name w. (Memory.answer table table.a name, w);
  lookup_aaaa = λ name w. (Memory.answer table table.aaaa name, w);
  lookup_mx = λ name w. (Memory.answer table table.mx name, w);
}

-- The same answers, with the queries counted.
abbrev counting : SpfResolver ℕ
counting = record {
  lookup_txt = λ name w. (Memory.answer table table.txt name, w + 1);
  lookup_a = λ name w. (Memory.answer table table.a name, w + 1);
  lookup_aaaa = λ name w. (Memory.answer table table.aaaa name, w + 1);
  lookup_mx = λ name w. (Memory.answer table table.mx name, w + 1);
}

included : check_host counting (v4 3_405_803_785) (codes "top.org") 0 ≡ (Verdict.pass, 2)
unfolding check_host check_host_at Evaluator.eval_candidates Evaluator.eval_record
    Evaluator.eval_mechanisms Evaluator.eval_mechanism Evaluator.charged Evaluator.charge_lookup
    Evaluator.qualifier_to_result Memory.answer get Record.normalize Record.is_spf1_record
    Record.mechanism_has_macro Record.parse_record Record.parse_terms Record.parse_modifier
    Record.parse_mechanism Record.parse_keyword Record.parse_ip4_cidr Record.parse_domain_spec
    Record.parse_dual_cidr Record.parse_cidrs Record.after_colon Text.split_whitespace Text.chars
    Text.words_of is_blank Text.split_once Text.break Text.to_ascii_lowercase Text.to_lower
    Text.is_empty Text.eq_ignore_ascii_case Text.strip_prefix Text.starts_with Text.parse_u8
    Text.u8_digits Text.trim Text.concat Text.drop_while Text.reverse Text.trim_end_matches
    bytes_beq Address.parse_ipv4 Address.read_ipv4_addr Address.read_octet Address.read_number
    Address.read_digits Address.ipv4_in_cidr
included = refl

queries_bounded_example : (check_host counting (v4 16_909_060) (codes "top.org") 5).1 ≤ 5 + 11
queries_bounded_example =
    queries_bounded (λ w. w) counting (λ d w. omega arith) (λ d w. omega arith) (λ d w. omega arith)
      (λ d w. omega arith) (v4 16_909_060) (codes "top.org") 5

abbrev charged : Evaluator.Evaluator (Unit {0})
charged = (check_host_at dns 11 (v4 16_909_060) (codes "top.org") (fresh tt)).1

-- A domain whose three hosts have no address.
abbrev hollow : InMemorySpfResolver
hollow = record {
  txt = (codes "void.org", codes "v=spf1 a:x.org a:y.org a:z.org +all" ∷ []) ∷ [];
  a = [];
  aaaa = [];
  mx = [];
  failing = [];
}

-- Its answers, with the empty ones counted.
abbrev voiding : SpfResolver ℕ
voiding = record {
  lookup_txt = λ name w. (Memory.answer hollow hollow.txt name, w);
  lookup_a = λ name w. let r = Memory.answer hollow hollow.a name in (r, w + empty_answer r);
  lookup_aaaa = λ name w. let r = Memory.answer hollow hollow.aaaa name in (r, w + empty_answer r);
  lookup_mx = λ name w. let r = Memory.answer hollow hollow.mx name in (r, w + empty_answer r);
}

third_void : check_host voiding (v4 16_909_060) (codes "void.org") 0 ≡ (perm_error, 3)
unfolding check_host check_host_at Evaluator.eval_candidates Evaluator.eval_record
    Evaluator.eval_mechanisms Evaluator.eval_mechanism Evaluator.charged Evaluator.charge_lookup
    Evaluator.asked Evaluator.replied Evaluator.void Evaluator.charge_void
    Evaluator.match_address_lookup Evaluator.qualifier_to_result Memory.answer get Record.normalize
    Record.is_spf1_record Record.mechanism_has_macro Record.parse_record Record.parse_terms
    Record.parse_modifier Record.parse_mechanism Record.parse_keyword Record.parse_domain_spec
    Record.parse_dual_cidr Record.parse_cidrs Record.after_colon Text.split_whitespace Text.chars
    Text.words_of is_blank Text.split_once Text.break Text.to_ascii_lowercase Text.to_lower
    Text.is_empty Text.eq_ignore_ascii_case Text.strip_prefix Text.starts_with Text.parse_u8
    Text.u8_digits Text.trim Text.concat Text.drop_while Text.reverse Text.trim_end_matches
    bytes_beq
third_void = refl

voids_bounded_example :
    ((check_host voiding (v4 16_909_060) (codes "void.org") 0).1 ≤ 0 + 2)
    ⊎ (((check_host voiding (v4 16_909_060) (codes "void.org") 0).1 ≤ 0 + 3)
        × ((check_host voiding (v4 16_909_060) (codes "void.org") 0).0 ≡ perm_error))
voids_bounded_example =
    voids_bounded (λ w. w) voiding (λ d w. omega arith) (λ d w. omega arith) (λ d w. omega arith)
      (λ d w. omega arith) (v4 16_909_060) (codes "void.org") 0

check_host_refines_example :
    ((check_host dns (v4 16_909_060) (codes "top.org") tt).0
      ≡ policy dns 11 (v4 16_909_060) (codes "top.org"))
    ⊎ (((check_host dns (v4 16_909_060) (codes "top.org") tt).0 ≡ perm_error)
        × ((10 < charged.lookups) ⊎ (2 < charged.void_lookups)))
check_host_refines_example = check_host_refines dns (v4 16_909_060) (codes "top.org")
