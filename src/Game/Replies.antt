-- ===== src/Game/Replies.antt =====
-- A reply to a client changes nothing in the world but what was sent.
use zappy.Prelude.{◌≡◌, arith}
use zappy.Game.{World, Reply, respond}

pub respond-keeps :
    (w : World) (r : Reply) → (respond w r).1 ≡ record w { sent = (respond w r).1.sent }
unfolding respond
respond-keeps w r = ground arith

pub board-respond : (w : World) (r : Reply) → (respond w r).1.board ≡ w.board
unfolding respond
board-respond w r = ground arith
