-- ===== src/Netconf.antt =====
-- NETCONF requests and the session: pkg/hal/structs.go, and `commitChanges`, the ACL requests and
-- the constants of pkg/hal/hal.go. A request is the document's content, not its XML text; the
-- device is a parameter, which answers each request with the data of its reply or with an error
-- text.
pub mod Documents
pub mod Decoding
pub mod Fields
pub mod Answers
use vmw_tsf.Prelude.{
  ℕ, Str, Bool, true, false, ◌&&◌, ◌||◌, List, [], ◌∷◌, Option, str, eqb, if◌then◌else◌,
}
use vmw_tsf.Net.{Ip}
use vmw_tsf.Outcome.{Outcome, ok, err, crash, request_failed}

pub record Ipv4Matches : Type 0 where
  pub destination_ipv4 : Str
  pub source_ipv4 : Str

pub record L4AclMatch : Type 0 where
  pub destination_lower_port : ℕ
  pub source_lower_port : ℕ

pub record RuleConfigItems : Type 0 where
  pub ipv4_matches : Option Ipv4Matches
  pub matches : Option L4AclMatch
  pub nexthop1 : Option Ip
  pub protocol : Str
  pub rule_type : Str

-- `operation` is "" where the attribute is left out. A rule id is taken as a natural number.
pub record Rule : Type 0 where
  pub config_items : Option RuleConfigItems
  pub operation : Str
  pub rule_id : ℕ

abbrev pub default_rule_id : ℕ
default_rule_id = 65434

-- The requests on the access list "Steering", and `Commit`.
pub data Request : Type 0 where
  get_acl_rules : Request
  edit_acl_rules : List Rule → Request
  delete_acl_rules : Request
  commit : Request

pub data Reply (D : Type 0) : Type 0 where
  done : D → Reply D
  failed : Str → Reply D

starts_with : Str → Str → Bool
starts_with s [] = true
starts_with [] (c ∷ t) = false
starts_with (b ∷ s) (c ∷ t) = eqb b c && starts_with s t

-- `strings.Contains`.
unfoldable pub contains : Str → Str → Bool
unfolding starts_with
contains [] t = starts_with [] t
contains (b ∷ s) t = starts_with (b ∷ s) t || contains s t

-- A device with states `D` that answers with rules.
abbrev pub Device : Type 0 → Type 0
Device D = Request → D → Reply (List Rule) × D

abbrev pub commit_result : {A : Type 0} → Reply A → Outcome (Unit {0})
commit_result (done rules) = ok tt
commit_result (failed e) =
    if contains e (str "Commit failed: empty commit") then ok tt else err (request_failed e)

abbrev pub result {ℓ} : {A : Type 0} → Reply A → Outcome (Unit {ℓ})
result (done a) = ok tt
result (failed e) = err (request_failed e)

module _ {D : Type 0} (exec : Device D) where
  -- `commitChanges`: an empty commit is no error.
  unfoldable pub commit_changes : D → Outcome (Unit {0}) × D
  commit_changes d = let (reply, d') = exec commit d in (commit_result reply, d')

  -- `_, err := session.Exec(…)`, where only the error counts.
  unfoldable pub request : Request → D → Outcome (Unit {0}) × D
  request q d = let (reply, d') = exec q d in (result reply, d')

  -- A request, and `commitChanges` unless it failed.
  unfoldable pub request_and_commit : Request → D → Outcome (Unit {0}) × D
  unfolding request commit_changes
  request_and_commit q d =
      let (answer, d') = request q d in
      elim answer [ ok _ ↦ commit_changes d' | err e ↦ (err e, d') | crash ↦ (crash, d') ]
