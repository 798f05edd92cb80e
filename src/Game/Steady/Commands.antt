-- ===== src/Game/Steady/Commands.antt =====
-- The commands that act at once.
use zappy.Prelude.{
  subst, some_inj, ℕ, zero, suc, ◌≡◌, refl, inl, inr, ◌==◌, Option, none, some, List, [], ◌∷◌,
  String, arith, Bool-cases, Option-cases,
}
use zappy.Board.{Position, Player, move_player}
use zappy.Board.Move.{move-SamePlayers}
use zappy.Game.{World, set_board, respond, Reply}
use zappy.Game.Items.{
  Transfer, Item, exchange, find_item, inventory_names, transfer, command_prend, command_pose,
  command_inventaire,
}
use zappy.Game.Moves.{
  command_droite, command_gauche, command_avance, command_fork, command_connect_nbr,
}
use zappy.Game.Vision.{command_voir}
use zappy.Game.Expulse.{expel, expulse_loop, after_loop, expulse_from, command_expulse}
use zappy.Game.Broadcast.{deliver, broadcast_loop, command_broadcast}
use zappy.Game.Steady.{
  Steady, Steady-refl, Steady-trans, Steady-respond, Steady-board, Steady-write_player,
}

pub Steady-answered : (w v : World) (r : Reply) → Steady w v → Steady w (respond v r).1
Steady-answered w v r k = Steady-trans w v _ k (Steady-respond v r)

Steady-move :
    (w : World) (p : ℕ) (new : Position) → Steady w (set_board w (move_player w.board p new))
Steady-move w p new = Steady-board w _ (move-SamePlayers w.board p new).team_id

pub Steady-droite : (w : World) (p : ℕ) (arg : Option String) → Steady w (command_droite w p arg).1
unfolding command_droite
Steady-droite w p arg = Steady-answered w _ _ (Steady-write_player w p _ refl)

pub Steady-gauche : (w : World) (p : ℕ) (arg : Option String) → Steady w (command_gauche w p arg).1
unfolding command_gauche
Steady-gauche w p arg = Steady-answered w _ _ (Steady-write_player w p _ refl)

pub Steady-avance : (w : World) (p : ℕ) (arg : Option String) → Steady w (command_avance w p arg).1
unfolding command_avance
Steady-avance w p arg = Steady-answered w _ _ (Steady-move w p _)

pub Steady-fork : (w : World) (p : ℕ) → Steady w (command_fork w p).1
unfolding command_fork
Steady-fork w p = Steady-respond w _

pub Steady-connect_nbr : (w : World) (p : ℕ) → Steady w (command_connect_nbr w p).1
unfolding command_connect_nbr
Steady-connect_nbr w p = Steady-respond w _

pub Steady-voir : (w : World) (p : ℕ) → Steady w (command_voir w p).1
unfolding command_voir
Steady-voir w p = record {
  teams = refl;
  clients = refl;
  next_ptr = refl;
  players = λ c. refl;
  team_ids = λ q. refl;
  buffers = λ v. v;
}

pub Steady-inventaire : (w : World) (p : ℕ) → Steady w (command_inventaire w p).1
unfolding command_inventaire
Steady-inventaire w p = record {
  teams = refl;
  clients = refl;
  next_ptr = refl;
  players = λ c. refl;
  team_ids = λ q. refl;
  buffers = λ v. v;
}

Steady-transfer :
    (w : World) (p : ℕ) (add : Transfer) (i : Option Item) → Steady w (transfer w p add i).1
unfolding transfer
Steady-transfer w p add i = Steady-board w _ (λ q. ground arith)

Steady-exchange :
    (w : World) (p : ℕ) (arg : Option String) (cmd : String) (add : Transfer)
    → Steady w (exchange w p arg cmd add).1
unfolding exchange
Steady-exchange w p none cmd add = Steady-respond w _
Steady-exchange w p (some arg) cmd add = elim (Option-cases (find_item arg inventory_names)) [
  | inl e ↦ rw (e, exchange) (Steady-respond w _)
  | inr (i, e) ↦ rw (e, exchange) (Steady-answered w _ _ (Steady-transfer w p add (some i)))
]

pub Steady-prend : (w : World) (p : ℕ) (arg : Option String) → Steady w (command_prend w p arg).1
unfolding command_prend
Steady-prend w p arg = Steady-exchange w p arg _ _

pub Steady-pose : (w : World) (p : ℕ) (arg : Option String) → Steady w (command_pose w p arg).1
unfolding command_pose
Steady-pose w p arg = Steady-exchange w p arg _ _

Steady-expel : (w : World) (p : ℕ) (new : Position) (it : ℕ) → Steady w (expel w p new it)
unfolding expel
Steady-expel w p new it = elim (Bool-cases ((w.player_at it).id == (w.player_at p).id)) [
  | inl self ↦ rw self (Steady-refl w)
  | inr other ↦ rw other (Steady-answered w _ _ (Steady-move w it new))
]

Steady-expulse_loop :
    (fuel : ℕ) (w w' : World) (p : ℕ) (new : Position) (it : Option ℕ)
    → expulse_loop fuel w p new it ≡ some w'
    → Steady w w'
unfolding expulse_loop
Steady-expulse_loop zero w w' p new none e = subst (Steady w) (some_inj e) (Steady-refl w)
Steady-expulse_loop (suc fuel) w w' p new none e = subst (Steady w) (some_inj e) (Steady-refl w)
Steady-expulse_loop zero w w' p new (some it) e = absurd (ground arith)
Steady-expulse_loop (suc fuel) w w' p new (some it) e =
    Steady-trans w (expel w p new it) w' (Steady-expel w p new it)
      (Steady-expulse_loop fuel (expel w p new it) w' p new _ e)

Steady-after_loop :
    (w : World) (p : ℕ) (r : Option World)
    → ((w' : World) → r ≡ some w' → Steady w w')
    → Steady w (after_loop w p r).1
Steady-after_loop w p none h = record {
  teams = refl;
  clients = refl;
  next_ptr = refl;
  players = λ c. refl;
  team_ids = λ q. refl;
  buffers = λ v. v;
}
Steady-after_loop w p (some w') h = Steady-answered w w' _ (h w' refl)

Steady-expulse_from : (w : World) (p : ℕ) (first : Option ℕ) → Steady w (expulse_from w p first).1
unfolding expulse_from
Steady-expulse_from w p none = Steady-respond w _
Steady-expulse_from w p (some it) =
    Steady-after_loop w p _ (λ w' e. Steady-expulse_loop w.next_ptr w w' p _ (some it) e)

pub Steady-expulse : (w : World) (p : ℕ) → Steady w (command_expulse w p).1
unfolding command_expulse
Steady-expulse w p = Steady-expulse_from w p _

Steady-deliver :
    (w : World) (emitter : Player) (text : Option String) (c : Option ℕ)
    → Steady w (deliver w emitter text c)
Steady-deliver w emitter text none = Steady-refl w
Steady-deliver w emitter text (some c) = elim (Option-cases (w.client_at c).player) [
  | inl e ↦ rw (e, deliver) (Steady-refl w)
  | inr (q, e) ↦ rw (e, deliver) (Steady-respond w _)
]

Steady-broadcast_loop :
    (w : World) (emitter : Player) (text : Option String) (slots : List (Option ℕ))
    → Steady w (broadcast_loop w emitter text slots)
unfolding broadcast_loop
Steady-broadcast_loop w emitter text [] = Steady-refl w
Steady-broadcast_loop w emitter text (c ∷ slots) =
    Steady-trans w (deliver w emitter text c) _ (Steady-deliver w emitter text c)
      (Steady-broadcast_loop (deliver w emitter text c) emitter text slots)

pub Steady-broadcast :
    (w : World) (p : ℕ) (text : Option String) → Steady w (command_broadcast w p text).1
unfolding command_broadcast
Steady-broadcast w p text =
    Steady-answered w _ _ (Steady-broadcast_loop w (w.player_at p) text w.clients)
