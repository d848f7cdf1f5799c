-- ===== src/Tests/Governor.antt =====
-- The governor of bridge/r60v_broker/governor.py, with two polls and a command.
use mathlib.Core.List.{Perm}
use r60v_home_assistant.Base.{◌≡◌, refl, none, some, List, [], ◌∷◌, arith, All}
use r60v_home_assistant.Base.Int.{pos}
use r60v_home_assistant.Base.Results.{Result, ok, err}
use r60v_home_assistant.Governor.{
  priority_command, priority_poll, Op, read, write, Fault, connection, Reply, bytes, Job, Governor,
  begin, take_least, init, submit, precedes,
}
use r60v_home_assistant.Governor.Queue.{Numbered}
use r60v_home_assistant.Governor.Service.{Event, submits, begins, finishes, step, run, jobs, held}
use r60v_home_assistant.Governor.Order.{Before, conserved, served_first}
use r60v_home_assistant.Governor.Drain.{turns, turns-perform, pending}

abbrev failing : Op → Result Fault Reply
failing op = err connection

abbrev answering : Op → Result Fault Reply
answering op = ok (bytes (pos 20 ∷ []))

abbrev poll : Event
poll = submits priority_poll (read (pos 0) (pos 0x73))

abbrev command : Event
command = submits priority_command (write (pos 2) (pos 105 ∷ []))

-- Two polls and a command are waiting; the newest event stands first.
abbrev waiting_jobs : List Event
waiting_jobs = command ∷ poll ∷ poll ∷ []

abbrev first_command : Job
first_command = record { priority = priority_command; seq = 2; op = write (pos 2) (pos 105 ∷ []) }

abbrev serving : Governor
serving = begin (run 100 waiting_jobs)

idle-IsIdle : (run 100 waiting_jobs).in_hand ≡ none
unfolding run step submit init
idle-IsIdle = refl

serving-Command : serving.in_hand ≡ some first_command
unfolding run step submit init begin take_least precedes
serving-Command = refl

conserved_example :
    Perm
      (held (run 100 (finishes 7 failing ∷ begins ∷ waiting_jobs)))
      (jobs (finishes 7 failing ∷ begins ∷ waiting_jobs))
    × Numbered (held (run 100 (finishes 7 failing ∷ begins ∷ waiting_jobs)))
conserved_example = conserved 100 (finishes 7 failing ∷ begins ∷ waiting_jobs)

served_first_example :
    Perm (run 100 waiting_jobs).queue (first_command ∷ serving.queue)
    × All (Before first_command) serving.queue
served_first_example = served_first 100 waiting_jobs first_command idle-IsIdle serving-Command

turns-perform_example :
    Perm
      (run 100
        (turns ((10, failing) ∷ (20, answering) ∷ (30, failing) ∷ []) waiting_jobs)).performed
      (jobs waiting_jobs)
unfolding run step submit init pending
turns-perform_example =
    turns-perform 100 waiting_jobs ((10, failing) ∷ (20, answering) ∷ (30, failing) ∷ [])
      (omega arith)
