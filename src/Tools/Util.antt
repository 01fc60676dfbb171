-- ===== src/Tools/Util.antt =====
-- internal/tools/util.go and common.go: the scope of a call and the arguments of a list.
mod Laws
mod Tests
use go_kubernetes_mcp_server.Base.{
  ℕ, ◌*◌, ◌/◌, ◌<◌, ℤ, pos, negsuc, String, ◌==◌, Bool, true, false, ◌&&◌, not, Option, none, some,
  List, [], ◌∷◌, ◌++◌, ltb, leb, if◌then◌else◌, contains_any, is_empty, length, take,
  is_not_positive, show_nat, ◌<>◌,
}
use go_kubernetes_mcp_server.Err.{Err, selector_newlines, all_namespaces_not_permitted}
use go_kubernetes_mcp_server.Kube.Objects.{ListOptions}
use go_kubernetes_mcp_server.Security.{Policy, check_target, check_namespace}

pub record ListArgs : Type 0 where
  pub namespace : String
  pub selector : String
  pub field_selector : String
  pub all_namespaces : Bool
  pub limit : ℤ

pub data Listed : Type 0 where
  listed : String → ListOptions → Listed
  refused : Err → Listed

unfoldable pub resolve_ns : String → String
resolve_ns ns = if ns == "" then "default" else ns

pub validate_selector : String → Option Err
validate_selector sel = if contains_any sel (10 ∷ 13 ∷ []) then some selector_newlines else none

-- The function `ResolveList`, without a toolkit.
pub resolve_list_args : ListArgs → Listed
unfolding validate_selector resolve_ns
resolve_list_args a = elim (validate_selector a.selector) [
  | some e ↦ refused e
  | none ↦ listed (if not a.all_namespaces then resolve_ns a.namespace else "") (record {
    label_selector = a.selector;
    field_selector = a.field_selector;
    limit = if is_not_positive a.limit then pos 0 else a.limit;
  })
]

unfoldable pub check_scope : Policy → String → Bool → Option Err
check_scope p ns cluster_scoped = elim (check_target p ns cluster_scoped) [
  | some e ↦ some e
  | none ↦ if not cluster_scoped && not (ns == "") then check_namespace p ns else none
]

-- The method `ResolveList` of the toolkit.
unfoldable pub resolve_list : Policy → ListArgs → Listed
unfolding resolve_list_args check_scope
resolve_list p a = elim (resolve_list_args a) [
  | refused e ↦ refused e
  | listed ns opts ↦
      if ns == ""
      then (if is_empty p.namespaces then listed ns opts else refused all_namespaces_not_permitted)
      else elim (check_scope p ns false) [ some e ↦ refused e | none ↦ listed ns opts ]
]

abbrev pub second : ℕ
second = 1000000000

abbrev pub minute : ℕ
minute = 60 * second

abbrev pub hour : ℕ
hour = 60 * minute

-- What `shortDuration` formats: a number of seconds, minutes, hours or days.
pub data Age : Type 0 where
  seconds minutes hours days : ℕ → Age

-- For a duration that is not negative; `int(d.Minutes())` and the like are quotients rounded down.
pub short_duration : ℕ → Age
short_duration d =
    if ltb d minute
    then seconds (d / second)
    else if ltb d hour
    then minutes (d / minute)
    else if ltb d (24 * hour)
    then hours (d / hour)
    else days (d / hour / 24)

-- `TruncLen`, over the runes of a text; 0x2026 is the ellipsis.
unfoldable pub trunc_len : List ℕ → ℕ → List ℕ
trunc_len r n = if leb (length r) n then r else take n r ++ 0x2026 ∷ []

abbrev pub show_age : Age → String
show_age (seconds n) = show_nat n <> "s"
show_age (minutes n) = show_nat n <> "m"
show_age (hours n) = show_nat n <> "h"
show_age (days n) = show_nat n <> "d"

-- `AgeStr`, of the time since a timestamp that is not in the future; the zero time has no age.
unfoldable pub age_str : Option ℕ → String
unfolding short_duration
age_str none = ""
age_str (some since) = show_age (short_duration since)
