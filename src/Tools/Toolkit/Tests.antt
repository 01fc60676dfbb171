-- ===== src/Tools/Toolkit/Tests.antt =====
-- The toolkit on concrete calls.
use go_kubernetes_mcp_server.Base.{
  ◌++◌, ◌∷◌, [], true, ℕ, ◌+◌, pos, ◌≡◌, refl, false, none, some, List, codes, arith,
}
use go_kubernetes_mcp_server.Err.{Err}
use go_kubernetes_mcp_server.Security.{destructive}
use go_kubernetes_mcp_server.Rpc.Truncate.{omitted_marker}
use go_kubernetes_mcp_server.Audit.{begin}
use go_kubernetes_mcp_server.Tools.Toolkit.{Run, ran, returned, panic, wrap, text_result}
use go_kubernetes_mcp_server.Tools.Toolkit.Laws.{IsLogged, wrap-IsLogged, AllWithin, wrap-AllWithin}
use go_kubernetes_mcp_server.Tools.Toolkit.Slots.Progress.{ended-Reach}
use go_kubernetes_mcp_server.Tools.Toolkit.Slots.{
  leave, Semaphore, init_semaphore, enter, has_room, started, Reach, here, next,
}

abbrev shown : Err → List ℕ
shown err = codes "error"

abbrev dots : ℕ → List ℕ
dots n = codes "..."

abbrev panicking : Run
panicking = ran (begin "delete_pod" destructive) (panic "nil map")

wrap-IsLogged_example :
    IsLogged destructive false (wrap shown dots (pos 4) "delete_pod" destructive 12 panicking).1
unfolding begin
wrap-IsLogged_example =
    wrap-IsLogged shown dots (pos 4) "delete_pod" destructive 12 panicking (refl, refl)

abbrev deleting : Run
deleting =
    ran (begin "delete_pod" destructive) (returned (some (text_result (codes "deleted"))) none)

wrap-AllWithin_example :
    AllWithin (4 + 80) (wrap shown omitted_marker (pos 4) "delete_pod" destructive 12 deleting).0
unfolding text_result
wrap-AllWithin_example =
    wrap-AllWithin shown 4 (omega arith) "delete_pod" destructive 12 deleting refl (omega arith, tt)

abbrev full : Semaphore
full = enter 2 (enter 1 (init_semaphore (pos 2)))

full-Reach : Reach (init_semaphore (pos 2)) full
unfolding init_semaphore enter
full-Reach = next (next here (started 1 refl)) (started 2 refl)

ended-Reach_example :
    ((id : ℕ) (before behind : List ℕ)
      → full.running ≡ before ++ (id ∷ behind)
      → has_room (leave (before ++ behind) full).capacity (leave (before ++ behind) full).buffered
        ≡ true)
    × ((t : Semaphore) × Reach full t × (t.running ≡ []) × (t.buffered ≡ 0))
ended-Reach_example = ended-Reach 1 full full-Reach
