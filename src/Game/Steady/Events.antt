-- ===== src/Game/Steady/Events.antt =====
-- The events: whatever runs, teams and slots stay as they are.
use zappy.Prelude.{
  ℕ, ◌<◌, ◌≡◌, true, arith, refl, inl, inr, ◌==◌, Option, none, some, String, Bool-cases,
  Option-cases,
}
use zappy.Time.{
  Event, EventBuffer, TimeApi, Owner, is_due, pop_head, event_at, run_callback, release_slot,
  process_client_events,
}
use zappy.Time.Valid.{IsValid, pop_head-IsValid, free_arg-IsValid}
use zappy.Time.Process.{process-due, process-not_due}
use zappy.Game.{
  World, Command, Callback, avance, droite, gauche, voir, inventaire, prend, pose, expulse,
  broadcast, incantation, fork, connect_nbr, on_command, real_incantation, send_map_observer,
  spawn_resources,
}
use zappy.Game.Dispatch.{prototype, run_event, client_buffer, server_buffer}
use zappy.Game.Steady.{Steady, Steady-refl, Steady-trans, Steady-write_client}
use zappy.Game.Steady.Commands.{
  Steady-droite, Steady-gauche, Steady-avance, Steady-fork, Steady-connect_nbr, Steady-voir,
  Steady-inventaire, Steady-prend, Steady-pose, Steady-expulse, Steady-broadcast,
}
use zappy.Game.Steady.Rituals.{Steady-incantation, Steady-real_incantation, Steady-spawn}

Steady-prototype :
    (k : Command) (w : World) (p : ℕ) (arg : Option String) → Steady w (prototype k w p arg).1
unfolding prototype
Steady-prototype avance w p arg = Steady-avance w p arg
Steady-prototype droite w p arg = Steady-droite w p arg
Steady-prototype gauche w p arg = Steady-gauche w p arg
Steady-prototype voir w p arg = Steady-voir w p
Steady-prototype inventaire w p arg = Steady-inventaire w p
Steady-prototype prend w p arg = Steady-prend w p arg
Steady-prototype pose w p arg = Steady-pose w p arg
Steady-prototype expulse w p arg = Steady-expulse w p
Steady-prototype broadcast w p arg = Steady-broadcast w p arg
Steady-prototype incantation w p arg = Steady-incantation w p
Steady-prototype fork w p arg = Steady-fork w p
Steady-prototype connect_nbr w p arg = Steady-connect_nbr w p

Steady-run_event :
    (k : Callback) (payload : Option ℕ) (arg : Option String) (w : World)
    → Steady w (run_event k payload arg w)
unfolding run_event
Steady-run_event (on_command k) none arg w = Steady-refl w
Steady-run_event (on_command k) (some p) arg w = Steady-prototype k w p arg
Steady-run_event real_incantation none arg w = Steady-refl w
Steady-run_event real_incantation (some p) arg w = Steady-real_incantation w p arg
Steady-run_event send_map_observer payload arg w = Steady-refl w
Steady-run_event spawn_resources payload arg w = Steady-spawn w payload arg

due_waits : {C : Type 0} (now : ℕ) (b : EventBuffer C) → is_due now b ≡ true → 0 < b.count
unfolding is_due
due_waits now b h = ground arith

module _ (o : Owner Callback World)
    (puts : (w : World) (b : EventBuffer Callback)
      → (IsValid (o.buffer w) → IsValid b)
      → Steady w (o.put w b))
    (calls : (k : Callback) (payload : Option ℕ) (arg : Option String) (w : World)
      → Steady w (o.call k payload arg w)) where
  Steady-callback : (e : Event Callback) (w : World) → Steady w (run_callback o e w)
  Steady-callback e w = elim (Option-cases e.callback) [
    | inl no_call ↦ rw (no_call, run_callback) (Steady-refl w)
    | inr (k, call) ↦ rw (call, run_callback) (calls k e.payload e.arg w)
  ]

  Steady-release : (slot head : ℕ) (w : World) → Steady w (release_slot o slot head w)
  unfolding release_slot
  Steady-release slot head w = elim (Bool-cases (head == (o.buffer w).head)) [
    | inl still ↦ rw still (puts w _ (λ v. free_arg-IsValid (o.buffer w) slot v))
    | inr moved ↦ rw moved (Steady-refl w)
  ]

  Steady-process : (api : TimeApi) (w : World) → Steady w (process_client_events o (some api) w).1
  Steady-process api w = elim (Bool-cases (is_due api.current_time_units (o.buffer w))) [
    | inr early ↦ rw (process-not_due o api w early) (Steady-refl w)
    | inl due ↦
        let b = o.buffer w in
        let w₁ = o.put w (pop_head b) in
        let w₂ = run_callback o (event_at b b.head) w₁ in
        rw (process-due o api w due) (
          Steady-trans w w₁ _
            (puts w (pop_head b)
              (λ v. pop_head-IsValid b v (due_waits api.current_time_units b due)))
            (Steady-trans w₁ w₂ _ (Steady-callback (event_at b b.head) w₁)
              (Steady-release b.head (pop_head b).head w₂)))
  ]

-- The next event of a client, whatever it is.
pub Steady-client_event :
    (c : ℕ) (api : TimeApi) (w : World)
    → Steady w (process_client_events (client_buffer c) (some api) w).1
Steady-client_event c =
    Steady-process (client_buffer c) (λ w b shape. Steady-write_client w c _ refl shape)
      Steady-run_event

-- The next event of the server.
pub Steady-server_event :
    (api : TimeApi) (w : World) → Steady w (process_client_events server_buffer (some api) w).1
Steady-server_event =
    Steady-process server_buffer
      (λ w b shape. record {
        teams = refl;
        clients = refl;
        next_ptr = refl;
        players = λ c. refl;
        team_ids = λ q. refl;
        buffers = λ v. (v.0, shape v.1);
      })
      Steady-run_event
