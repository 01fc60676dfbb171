-- ===== src/Tools/Toolkit/Slots/Progress.antt =====
-- The slots of the handlers come free: no call waits for a handler that cannot end.
use go_kubernetes_mcp_server.Base.{
  ℕ, suc, pos, ◌≡◌, refl, ◌∙◌, true, some, List, [], ◌∷◌, ◌++◌, length, length-append, arith, ap,
}
use go_kubernetes_mcp_server.Tools.Toolkit.Slots.{
  Semaphore, init_semaphore, has_room, leave, Step, ended, Reach, here, next, Keeps, Reach-Keeps,
  Step-Keeps, init_semaphore-IsCounted,
}

Reach-append : {s t u : Semaphore} → Reach s t → Reach t u → Reach s u
Reach-append r here = r
Reach-append r (next q st) = next (Reach-append r q) st

-- A handler that ends leaves room.
ended-has_room :
    (n id : ℕ) (before behind : List ℕ) (s : Semaphore)
    → Keeps (some n) s
    → s.running ≡ before ++ (id ∷ behind)
    → has_room (leave (before ++ behind) s).capacity (leave (before ++ behind) s).buffered ≡ true
unfolding leave
ended-has_room n id before behind s (e, (same, le)) r =
    ground (arith, length-append {A = ℕ} before (id ∷ behind), ap (length {A = ℕ}) r)

-- From any state, the handlers can end one after the other.
all_end :
    (n : ℕ) (xs : List ℕ) (s : Semaphore)
    → Keeps (some n) s
    → s.running ≡ xs
    → (t : Semaphore) × Reach s t × Keeps (some n) t × (t.running ≡ [])
unfolding leave
all_end n [] s k e = (s, here, k, e)
all_end n (x ∷ xs) s k e =
    let st : Step s (leave xs s) = ended x [] xs e in
    let (t, r, k', e') = all_end n xs (leave xs s) (Step-Keeps (some n) st k) refl in
    (t, Reach-append (next here st) r, k', e')

-- However calls have started, waited and ended: when any of the handlers that run ends there is room for
-- a call that waits; and there are steps, in which handlers only end, that give all slots back.
pub ended-Reach :
    (n : ℕ) (s : Semaphore)
    → Reach (init_semaphore (pos (suc n))) s
    → ((id : ℕ) (before behind : List ℕ)
        → s.running ≡ before ++ (id ∷ behind)
        → has_room (leave (before ++ behind) s).capacity (leave (before ++ behind) s).buffered
          ≡ true)
      × ((t : Semaphore) × Reach s t × (t.running ≡ []) × (t.buffered ≡ 0))
unfolding init_semaphore
ended-Reach n s r =
    let k : Keeps (some (suc n)) s =
      Reach-Keeps (some (suc n)) (refl, init_semaphore-IsCounted (pos (suc n))) r in
    let (t, q, (e, (same, le)), none_left) = all_end (suc n) s.running s k refl in
    (
      λ id before behind h. ended-has_room (suc n) id before behind s k h,
      (t, q, none_left, same ∙ ap (length {A = ℕ}) none_left),
    )
