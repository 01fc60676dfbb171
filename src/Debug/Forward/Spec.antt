-- ===== src/Debug/Forward/Spec.antt =====
-- internal/tools/debug/portforward.go: the forward's ports and its duration.
use Prim.Native.String.append
use go_kubernetes_mcp_server.Base.{
  ℕ, ◌≤◌, ◌<◌, ◌≡◌, ◌≢◌, refl, true, String, ℤ, Option, none, arith, contains_char, cut_at, ◌<>◌,
}
use go_kubernetes_mcp_server.Security.{Policy}
use go_kubernetes_mcp_server.Tools.Util.{hour, resolve_ns}
use go_kubernetes_mcp_server.Debug.Forward.{
  normalize_port, tunnel_duration, tunnel_text, PortForwardArgs, Opening, port_forward, admit,
}

-- A tunnel stays open for more than no time, and for an hour at most.
pub tunnel_duration_bounds :
    (parse_dur : String → Option ℤ) (duration : String)
    → (0 < tunnel_duration parse_dur duration) × (tunnel_duration parse_dur duration ≤ hour)
unfolding tunnel_duration
tunnel_duration_bounds parse_dur duration = ground arith

cut_at-some : (c : ℕ) (t : String) → contains_char c t ≡ true → cut_at c t ≢ none
unfolding cut_at contains_char
cut_at-some c String.[] h = ground arith
cut_at-some c (String.◌∷◌ x t) h = ground (arith, cut_at-some c t)

contains_char-append :
    (c : ℕ) (t u : String) → contains_char c u ≡ true → contains_char c (t <> u) ≡ true
unfolding contains_char
contains_char-append c String.[] u h = rw (append.nil u) h
contains_char-append c (String.◌∷◌ x t) u h =
    rw (append.cons x t u) (ground (arith, contains_char-append c t u))

contains_char-before :
    (c : ℕ) (t u : String) → contains_char c t ≡ true → contains_char c (t <> u) ≡ true
unfolding contains_char
contains_char-before c String.[] u h = ground arith
contains_char-before c (String.◌∷◌ x t) u h =
    rw (append.cons x t u) (ground (arith, contains_char-before c t u))

contains_char-normalize_port : (p : String) → contains_char b':' (normalize_port p) ≡ true
unfolding normalize_port contains_char
contains_char-normalize_port p =
    ground (arith, contains_char-append b':' p (":" <> p) (contains_char-before b':' ":" p refl))

tunnel_text-some :
    (ns pod local duration : String)
    → cut_at b':' local ≢ none
    → tunnel_text ns pod local duration ≢ none
unfolding tunnel_text
tunnel_text-some ns pod local duration h = ground arith

-- The port that `port_forward` splits always holds a ':', so its index into the parts is in range:
-- every call returns a result, whatever its port is.
pub port_forward-returns :
    (parse_dur : String → Option ℤ) (show_duration : ℕ → String) (p : Policy) (a : PortForwardArgs)
    (opening : Opening) (forwards : ℕ)
    → (port_forward parse_dur show_duration p a opening forwards).2 ≢ none
unfolding port_forward admit
port_forward-returns parse_dur show_duration p a opening forwards =
    let cut = cut_at-some b':' (normalize_port a.port) (contains_char-normalize_port a.port) in
    let shown =
      tunnel_text-some (resolve_ns a.namespace) a.pod (normalize_port a.port)
        (show_duration (tunnel_duration parse_dur a.duration)) cut in
    ground arith
