-- ===== src/Server/Leaving.antt =====
-- `m_remove_clients`: which of the leaving sockets it closes.
use zappy.Prelude.{ℕ, suc, ◌+◌, ◌≡◌, refl, some, List, [], ◌∷◌, length, arith}
use zappy.FtList.{FtList, removed_clients}
use zappy.FtList.Ring.{IsRing, get_first-IsRing, clients_from-through}
use zappy.Server.{Server, reached}

-- `m_remove_clients` on the list `x ∷ xs` of clients that are to leave: with fuel for each the loop
-- ends, and the clients that it comes to are those of `reached`, all but the head `x` unless that
-- is the only one.
pub removed_clients-reached :
    (l : FtList) (x : ℕ) (xs : List ℕ) (n : ℕ)
    → IsRing l x xs
    → removed_clients (length (x ∷ xs) + n) l ≡ some (reached (x ∷ xs))
unfolding removed_clients reached
removed_clients-reached l x [] n r =
    let z : 1 + n ≡ 0 + suc n = omega arith in
    rw
      (
        get_first-IsRing l x [] n r,
        z,
        clients_from-through l x x [] n r.head r.linked refl,
        removed_clients,
      )
      refl
removed_clients-reached l x (y ∷ ys) n r =
    let z : suc (suc (length ys)) + n ≡ length ys + suc (suc n) = omega arith in
    rw
      (
        get_first-IsRing l x (y ∷ ys) n r,
        z,
        clients_from-through l x y ys (suc n) r.head r.linked.2 (ground (arith, r.distinct.0)),
        removed_clients,
      )
      refl
