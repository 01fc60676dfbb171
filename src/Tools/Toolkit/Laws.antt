-- ===== src/Tools/Toolkit/Laws.antt =====
-- What every call of a wrapped handler gives: one audit line, and a text within the cap.
use go_kubernetes_mcp_server.Base.{
  ℕ, ◌+◌, ◌≤◌, ◌<◌, ℤ, pos, ◌≡◌, inl, inr, Bool, true, false, Option, none, some, List, [], ◌∷◌,
  length, take, map, String, arith, All, IsIn, ◌-◌, length-append, length-take-le, ◌↔◌, max_int,
  utf8, encode, utf8_code, show_nat, refl, ◌++◌,
}
use go_kubernetes_mcp_server.Err.{Err}
use go_kubernetes_mcp_server.Security.{
  Verb, destructive, Policy, check_mutating, check_destructive, check_debug, write, debug, read,
  can_mutate, can_destroy, can_debug,
}
use go_kubernetes_mcp_server.Base.Show.Laws.{show_nat-length}
use go_kubernetes_mcp_server.Rpc.Truncate.{omitted_marker}
use go_kubernetes_mcp_server.Rpc.Truncate.Laws.{truncate_text_lem}
use go_kubernetes_mcp_server.Audit.{Line, begin, finish, bool_attr, warn, info, Level}
use go_kubernetes_mcp_server.Tools.Toolkit.{
  Content, text_content, other_content, CallToolResult, truncate_content, returned, panic, Run,
  no_slot, ran, wrap, is_gated,
}

-- A run whose handler has kept the tool and the verb of the record that `Begin` made.
abbrev pub Keeps : String → Verb → Run → Type 0
Keeps name verb no_slot = Unit
Keeps name verb (ran rec ended) = (rec.tool ≡ name) × (rec.verb ≡ verb)

-- The handler was run and returned no error.
abbrev pub succeeded : Run → Bool
succeeded no_slot = false
succeeded (ran rec (returned res none)) = true
succeeded (ran rec (returned res (some err))) = false
succeeded (ran rec (panic value)) = false

abbrev pub level_for : Verb → Level
level_for destructive = warn
level_for _ = info

-- The one line that a call logs.
abbrev pub IsLogged : Verb → Bool → List Line → Type 0
IsLogged verb success [] = ⊥
IsLogged verb success (line ∷ []) =
    IsIn (bool_attr "success" success) line.attrs × (line.level ≡ level_for verb)
IsLogged verb success (line ∷ more ∷ lines) = ⊥

-- A call logs exactly one line, whether it gets no slot, panics, fails or succeeds. The line says
-- success exactly if the handler returned no error, and it is a warning exactly if the verb is
-- destructive.
pub wrap-IsLogged :
    (render : Err → List ℕ) (marker : ℕ → List ℕ) (max_bytes : ℤ) (name : String) (verb : Verb)
    (elapsed : ℕ) (r : Run)
    → Keeps name verb r
    → IsLogged verb (succeeded r) (wrap render marker max_bytes name verb elapsed r).1
unfolding wrap begin finish
wrap-IsLogged render marker max_bytes name verb elapsed no_slot k = ground arith
wrap-IsLogged render marker max_bytes name verb elapsed (ran rec (returned res none)) k =
    ground arith
wrap-IsLogged render marker max_bytes name verb elapsed (ran rec (returned res (some err))) k =
    ground arith
wrap-IsLogged render marker max_bytes name verb elapsed (ran rec (panic value)) k = ground arith

-- A tool is not gated exactly if the check of its verb passes.
abbrev pub check_of : Verb → Policy → Option Err
check_of read p = none
check_of write p = check_mutating p
check_of destructive p = check_destructive p
check_of debug p = check_debug p

-- The gate at registration and the guard of the handlers agree: `IsGated` lets a tool through exactly
-- if the policy's check for its verb passes.
pub is_gated-check :
    (verb : Verb) (p : Policy) → (is_gated verb p ≡ false) ↔ (check_of verb p ≡ none)
unfolding is_gated check_mutating check_destructive check_debug can_mutate can_destroy can_debug
is_gated-check read p = ground arith
is_gated-check write p = ground arith
is_gated-check destructive p = ground arith
is_gated-check debug p = ground arith

-- The size of a text, and no bound for other content.
abbrev pub Within : ℕ → Content → Type 0
Within n (text_content text) = length text ≤ n
Within n (other_content k) = Unit

abbrev pub AllWithin : ℕ → Option CallToolResult → Type 0
AllWithin n none = Unit
AllWithin n (some res) = All (Within n) res.content

-- Lengths of Go's texts are below 2^63.
abbrev pub Sized : Run → Type 0
Sized (ran rec (returned (some res) err)) = All (Within max_int) res.content
Sized _ = Unit

-- A marker is 61 bytes of text and the digits of a length, at most nineteen.
omitted_marker-length : (n : ℕ) → n ≤ max_int → length (omitted_marker n) ≤ 80
unfolding omitted_marker
omitted_marker-length n h =
    let head : List ℕ = utf8 "\n…truncated (" in
    let tail : List ℕ = utf8 " more bytes omitted, raise --max-output-bytes)" in
    let head_length : length head ≡ 15 = unfold utf8 in unfold encode in unfold utf8_code in refl in
    let tail_length : length tail ≡ 46 = unfold utf8 in unfold encode in unfold utf8_code in refl in
    omega (
      arith,
      length-append {A = ℕ} head (utf8 (show_nat n) ++ tail),
      length-append {A = ℕ} (utf8 (show_nat n)) tail,
      show_nat-length 18 n (omega arith),
      head_length,
      tail_length,
    )

truncate_content-Within :
    (max_bytes : ℕ)
    → 0 < max_bytes
    → (c : Content) → Within max_int c
    → Within (max_bytes + 80) (truncate_content omitted_marker (pos max_bytes) c)
truncate_content-Within max_bytes h (text_content s) k =
    elim (truncate_text_lem omitted_marker s max_bytes) [
      | inl (fits, same) ↦ rw same (ground arith)
      | inr (cut, le, here, most, same) ↦ rw same (
          omega (
            arith,
            length-append {A = ℕ} (take cut s) (omitted_marker (length s - max_bytes)),
            length-take-le {A = ℕ} cut s,
            omitted_marker-length (length s - max_bytes) (omega (arith, k)),
          ))
    ]
truncate_content-Within max_bytes h (other_content n) k = tt

map-All :
    (max_bytes : ℕ)
    → 0 < max_bytes
    → (cs : List Content) → All (Within max_int) cs
    → All (Within (max_bytes + 80)) (map (truncate_content omitted_marker (pos max_bytes)) cs)
map-All max_bytes h [] ks = tt
map-All max_bytes h (c ∷ cs) (k, ks) =
    (truncate_content-Within max_bytes h c k, map-All max_bytes h cs ks)

-- Under a positive cap no text of a successful result is longer than the cap and 80 bytes, the most
-- that the marker of what is left out takes, as long as the handler's texts have lengths below 2^63.
pub wrap-AllWithin :
    (render : Err → List ℕ) (max_bytes : ℕ)
    → 0 < max_bytes
    → (name : String) (verb : Verb) (elapsed : ℕ) (r : Run) → succeeded r ≡ true
    → Sized r
    → AllWithin (max_bytes + 80) (wrap render omitted_marker (pos max_bytes) name verb elapsed r).0
unfolding wrap
wrap-AllWithin render max_bytes h name verb elapsed no_slot s k = cc
wrap-AllWithin render max_bytes h name verb elapsed (ran rec (returned none none)) s k = tt
wrap-AllWithin render max_bytes h name verb elapsed (ran rec (returned (some res) none)) s k =
    map-All max_bytes h res.content k
wrap-AllWithin render max_bytes h name verb elapsed (ran rec (returned res (some err))) s k = cc
wrap-AllWithin render max_bytes h name verb elapsed (ran rec (panic value)) s k = cc
