-- ===== src/Rtos/Tests/Evdev.antt =====
-- The /dev/events bridge with one registered pipe.
use tnc640unix.Base.{◌≡◌, refl, true, false, none, [], ◌∷◌, arith}
use tnc640unix.Rtos.Table.{find_slot}
use tnc640unix.Rtos.State.{default_env}
use tnc640unix.Rtos.Tasks.{task_self, register}
use tnc640unix.Rtos.Events.{ev_send, ev_turn, ev_check}
use tnc640unix.Rtos.Evdev.{
  Evdev, Bridge, evdev_at, ev_send_bridged, ev_turn_bridged, evdev_watch, heros_evdev_register,
  heros_evdev_setmask, evdev_reconcile, evdev_reconcile_locked, wanted, poke,
}
use tnc640unix.Rtos.Evdev.Pipes.{readable, send_readable}
use tnc640unix.Rtos.Evdev.Runs.{Event, step, run, PipesOk, run-PipesOk}
use tnc640unix.Rtos.Tests.{first_thread, one_task}

-- The pipe of the first thread, which listens to bit 3
abbrev its_pipe : Evdev
its_pipe = record { task = 0x100; rd = 5; wr = 6; sysmask = 8; signaled = false; unread = 0 }

abbrev one_pipe : Bridge
one_pipe = record { evdevs = its_pipe ∷ []; events_bridge = true; evdev_sibling = none }

abbrev no_pipe : Bridge
no_pipe = record { evdevs = []; events_bridge = true; evdev_sibling = none }

send_readable_example :
    (readable (evdev_at 0 (ev_send_bridged 0x100 8 (one_task, one_pipe)).1.1) ≡ true)
    × (readable (evdev_at 0 (evdev_watch false 0 (ev_send 0x100 8 one_task).1 one_pipe)) ≡ true)
unfolding find_slot
send_readable_example =
    send_readable 0x100 0 8 0 false one_task one_pipe refl refl (omega arith) refl refl
      (λ e. omega (arith, e))

no_pipe-PipesOk : PipesOk no_pipe
no_pipe-PipesOk = record { coherent = λ i d at. cc; bounded = omega arith }

run-PipesOk_example :
    PipesOk
      (run
        (Event.registers default_env first_thread 5 6
          ∷ Event.masks 5 8
          ∷ Event.sends 0x100 8
          ∷ Event.receives 0 8 2 0 false
          ∷ [])
        (one_task, no_pipe)).1
run-PipesOk_example = run-PipesOk _ one_task no_pipe no_pipe-PipesOk

-- After the registration, the mask and a send the pipe has one byte; after the receive, none.
signal_and_drain :
    let heard =
      run
        (Event.registers default_env first_thread 5 6 ∷ Event.masks 5 8 ∷ Event.sends 0x100 8 ∷ [])
        (one_task, no_pipe) in
    (readable (evdev_at 0 heard.1) ≡ true)
    × (readable (evdev_at 0 (run (Event.receives 0 8 2 0 false ∷ []) heard).1) ≡ false)
unfolding run find_slot step ev_send_bridged ev_turn_bridged heros_evdev_register
    heros_evdev_setmask evdev_reconcile evdev_reconcile_locked wanted poke task_self register
    ev_send ev_turn ev_check
signal_and_drain = (refl, refl)
