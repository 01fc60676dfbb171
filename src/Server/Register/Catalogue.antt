-- ===== src/Server/Register/Catalogue.antt =====
-- The registered tools are those of the whole catalogue whose category is enabled and whose verb the
-- policy does not gate.
use go_kubernetes_mcp_server.Base.{
  String, true, ◌&&◌, not, List, [], ◌∷◌, ◌++◌, map, if◌then◌else◌, ◌≡◌, refl, arith, ◌∙◌, sym, ap,
  subst, IsIn, false,
}
use mathlib.Core.List.{append_assoc}
use go_kubernetes_mcp_server.Config.{Config, category_enabled}
use go_kubernetes_mcp_server.Security.{
  Policy, Verb, read, write, destructive, debug, can_mutate, can_destroy, can_debug,
}
use go_kubernetes_mcp_server.Tools.Toolkit.{is_gated}
use go_kubernetes_mcp_server.Server.Register.{
  core_tools, workloads_tools, troubleshoot_tools, network_tools, configstore_tools, write_tools,
  destructive_tools, debug_tools, register_operations, reg, register, of_verb, core_names,
  workloads_names, troubleshoot_names, network_names, configstore_names, write_names,
  destructive_names, debug_names,
}

-- Every tool of the program, with its category and its verb.
abbrev pub catalogue : List (String × (String × Verb))
catalogue =
    map (λ t. ("core", t)) core_tools
    ++ (map (λ t. ("workloads", t)) workloads_tools
        ++ (map (λ t. ("troubleshoot", t)) troubleshoot_tools
            ++ (map (λ t. ("network", t)) network_tools
                ++ (map (λ t. ("configstore", t)) configstore_tools
                    ++ (map (λ t. ("operations", t)) write_tools
                        ++ (map (λ t. ("operations", t)) destructive_tools
                            ++ map (λ t. ("debug", t)) debug_tools))))))

pub keep : Config → Policy → List (String × (String × Verb)) → List (String × Verb)
keep c p [] = []
keep c p ((category, (name, verb)) ∷ ts) =
    let rest = keep c p ts in
    if category_enabled c category && not (is_gated verb p) then (name, verb) ∷ rest else rest

keep-append :
    (c : Config) (p : Policy) (ts us : List (String × (String × Verb)))
    → keep c p (ts ++ us) ≡ keep c p ts ++ keep c p us
unfolding keep
keep-append c p [] us = refl
keep-append c p (t ∷ ts) us = ground (arith, keep-append c p ts us)

-- Tools of one category and one verb are kept together or dropped together.
keep-of_verb :
    (c : Config) (p : Policy) (category : String) (v : Verb) (names : List String)
    → keep c p (map (λ t. (category, t)) (of_verb v names))
      ≡ (if category_enabled c category && not (is_gated v p) then of_verb v names else [])
unfolding keep
keep-of_verb c p category v [] = ground arith
keep-of_verb c p category v (n ∷ names) = ground (arith, keep-of_verb c p category v names)

-- A stretch of one category and one verb, and what is kept behind it.
keep-of_verb_append :
    (c : Config) (p : Policy) (category : String) (v : Verb) (names : List String)
    (ts : List (String × (String × Verb))) {out kept : List (String × Verb)}
    → (if category_enabled c category && not (is_gated v p) then of_verb v names else []) ≡ kept
    → keep c p ts ≡ out
    → keep c p (map (λ t. (category, t)) (of_verb v names) ++ ts) ≡ kept ++ out
keep-of_verb_append c p category v names ts e h = rw (
  keep-append c p (map (λ t. (category, t)) (of_verb v names)) ts,
  keep-of_verb c p category v names,
  e,
  h,
)

keep-reg :
    (c : Config) (p : Policy) (category : String) (names : List String)
    → (if category_enabled c category && not (is_gated read p) then of_verb read names else [])
      ≡ reg c category (of_verb read names)
unfolding reg is_gated
keep-reg c p category names = ground arith

keep-debug :
    (c : Config) (p : Policy) (names : List String)
    → keep c p (map (λ t. ("debug", t)) (of_verb debug names))
      ≡ (if category_enabled c "debug" && can_debug p then of_verb debug names else [])
unfolding is_gated can_debug
keep-debug c p names = keep-of_verb c p "debug" debug names ∙ ground arith

-- The tools that write, with the destructive ones behind them.
keep-operations :
    (c : Config) (p : Policy) (writes destroys rest : List (String × Verb))
    → (p.allow_destructive ≡ true → p.allow_writes ≡ true)
    → (if category_enabled c "operations" && not (is_gated write p) then writes else [])
        ++ ((if category_enabled c "operations" && not (is_gated destructive p)
              then destroys
              else [])
            ++ rest)
      ≡ (if category_enabled c "operations" && can_mutate p
          then writes ++ (if can_destroy p then destroys else [])
          else [])
        ++ rest
unfolding is_gated can_mutate can_destroy
keep-operations c p writes destroys rest h =
    ground (arith, append_assoc writes destroys rest, append_assoc writes [] rest)

-- With a policy whose destructive tools imply its writing ones, as `FromConfig` makes it, the tools that
-- are registered are those of the whole catalogue, in its order, whose category is enabled and whose
-- verb `IsGated` does not gate.
pub register-catalogue :
    (c : Config) (p : Policy)
    → (p.allow_destructive ≡ true → p.allow_writes ≡ true)
    → register c p ≡ keep c p catalogue
unfolding register register_operations
register-catalogue c p h = sym (
    keep-of_verb_append c p "core" read core_names _ (keep-reg c p "core" core_names) (
      keep-of_verb_append c p "workloads" read workloads_names _
        (keep-reg c p "workloads" workloads_names)
        (keep-of_verb_append c p "troubleshoot" read troubleshoot_names _
          (keep-reg c p "troubleshoot" troubleshoot_names)
          (keep-of_verb_append c p "network" read network_names _
            (keep-reg c p "network" network_names)
            (keep-of_verb_append c p "configstore" read configstore_names _
              (keep-reg c p "configstore" configstore_names)
              (keep-of_verb_append c p "operations" write write_names _ refl (
                  keep-of_verb_append c p "operations" destructive destructive_names _ refl
                    (keep-debug c p debug_names))
                ∙ keep-operations c p write_tools destructive_tools _ h))))))

same_gate : (p : Policy) (t u : String × Verb) → t ≡ u → is_gated t.1 p ≡ is_gated u.1 p
same_gate p t u e = ap (λ x. is_gated x.1 p) e

-- A tool that is kept is not gated.
keep-is_gated :
    (c : Config) (p : Policy) (ts : List (String × (String × Verb))) (t : String × Verb)
    → IsIn t (keep c p ts)
    → is_gated t.1 p ≡ false
unfolding keep
keep-is_gated c p [] t h = elim h [ ]
keep-is_gated c p ((category, tool) ∷ ts) t h =
    ground (arith, keep-is_gated c p ts t, same_gate p tool t)

-- A tool that is registered is not gated.
pub register-is_gated :
    (c : Config) (p : Policy) (t : String × Verb)
    → (p.allow_destructive ≡ true → p.allow_writes ≡ true)
    → IsIn t (register c p)
    → is_gated t.1 p ≡ false
register-is_gated c p t h e =
    keep-is_gated c p catalogue t (subst (IsIn t) (register-catalogue c p h) e)
