-- ===== src/Debug/Forward/Slots.antt =====
-- internal/tools/debug/portforward.go: the counter `forwards` against the calls and tunnels that hold
-- a slot, over every interleaving of calls, failures and teardowns.
use go_kubernetes_mcp_server.Base.{
  ℕ, suc, ◌≤◌, ◌≡◌, refl, ap, String, ℤ, Option, none, some, List, [], ◌∷◌, ◌++◌, length,
  length-append, arith, if◌then◌else◌,
}
use go_kubernetes_mcp_server.Security.{Policy}
use go_kubernetes_mcp_server.Debug.Forward.{
  max_concurrent_forwards, acquire_forward, release_forward, PortForwardArgs, Opening, port_forward,
}

-- A slot is held by a call that is opening its tunnel, or by an open tunnel.
pub data Holder : Type 0 where
  opening open_tunnel : Holder

pub record Forwards : Type 0 where
  pub count : ℕ
  pub holders : List Holder

pub data Step : Forwards → Forwards → Type 0 where
  acquired :
      {s : Forwards} (n : ℕ)
      → acquire_forward s.count ≡ some n
      → Step s (record { count = n; holders = opening ∷ s.holders })
  refused : {s : Forwards} → acquire_forward s.count ≡ none → Step s s
  opened :
      {s : Forwards} (before behind : List Holder)
      → s.holders ≡ before ++ (opening ∷ behind)
      → Step s (record s { holders = before ++ (open_tunnel ∷ behind) })
  -- A failure to open, or a teardown.
  released :
      {s : Forwards} (h : Holder) (before behind : List Holder)
      → s.holders ≡ before ++ (h ∷ behind)
      → Step s (record { count = release_forward s.count; holders = before ++ behind })

pub data Reach (s : Forwards) : Forwards → Type 0 where
  here : Reach s s
  next : {t u : Forwards} → Reach s t → Step t u → Reach s u

abbrev pub idle : Forwards
idle = record { count = 0; holders = [] }

abbrev IsCounted : Forwards → Type 0
IsCounted s = (s.count ≡ length s.holders) × (s.count ≤ max_concurrent_forwards)

Step-IsCounted : {s t : Forwards} → Step s t → IsCounted s → IsCounted t
unfolding acquire_forward release_forward
Step-IsCounted (acquired {s} n e) k = ground arith
Step-IsCounted (refused e) k = k
Step-IsCounted (opened {s} before behind e) k = ground (
  arith,
  length-append {A = Holder} before (opening ∷ behind),
  length-append {A = Holder} before (open_tunnel ∷ behind),
  ap (length {A = Holder}) e,
)
Step-IsCounted (released {s} h before behind e) k = ground (
  arith,
  length-append {A = Holder} before (h ∷ behind),
  length-append {A = Holder} before behind,
  ap (length {A = Holder}) e,
)

Reach-IsCounted : {s : Forwards} → Reach idle s → IsCounted s
Reach-IsCounted here = (refl, omega arith)
Reach-IsCounted (next r st) = Step-IsCounted st (Reach-IsCounted r)

-- However calls and teardowns interleave, the counter is the number of slots that are held, at most
-- five are held, and a call is refused a slot only while five are.
pub at_most_five :
    {s : Forwards}
    → Reach idle s
    → (s.count ≡ length s.holders)
      × (length s.holders ≤ max_concurrent_forwards)
      × (acquire_forward s.count ≡ none → length s.holders ≡ max_concurrent_forwards)
unfolding acquire_forward
at_most_five {s} r = let k = Reach-IsCounted r in ground arith

-- A call of port_forward leaves the counter as it found it, or one higher with a tunnel left open,
-- whatever comes of its transport, its forwarder and its wait.
pub port_forward-count :
    (parse_dur : String → Option ℤ) (show_duration : ℕ → String) (p : Policy) (a : PortForwardArgs)
    (o : Opening) (forwards : ℕ)
    → let (count, tunnel, result, acts) = port_forward parse_dur show_duration p a o forwards in
      count ≡ (if tunnel then suc forwards else forwards)
unfolding port_forward acquire_forward release_forward
port_forward-count parse_dur show_duration p a o forwards = ground arith
