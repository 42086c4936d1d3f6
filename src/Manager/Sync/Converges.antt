-- ===== src/Manager/Sync/Converges.antt =====
-- The synchronizer reaches the status that is asked for (backend/src/manager/sync.rs).
use start_os.Common.{
  ℕ, zero, suc, ◌≤◌, ◌≡◌, refl, ap, ◌∙◌, Bool, true, false, ◌&&◌, arith, and_left, and_right,
}
use start_os.Status.{
  DateTime, MainStatus, restarting, stopping, starting_up, running_since, backing_up,
}
use start_os.Manager.Sync.{
  Status, running, paused, OnStop, sleep, restart, exit, Thread, deciding, entering, sleeping,
  in_main, ManagerSharedState, Docker, Synced, synchronize_once, when_stopped, when_starting,
  when_running, when_paused, start, stop, pause, resume, terminate, send_signal,
}
use start_os.Manager.Sync.Loop.{decide, enter_main, fetch_starting_to_running, IsReachable}
use start_os.Manager.Sync.Orderly.{orderly, is_exit, is_stopped}
use start_os.Manager.Sync.Rounds.{
  react, settle, obeying, round, rounds, agrees, leads_to, is_done, state,
}
use start_os.Manager.Sync.Reaches.{reachable-IsOrderly}

-- What is left when the thread waits and was not told to exit.
data Form : Type 0 where
  idle : Form
  up : (frozen on_sleep : Bool) → Form

abbrev up_status : Bool → Status
up_status true = paused
up_status false = running

abbrev up_on_stop : Bool → OnStop
up_on_stop true = sleep
up_on_stop false = restart

abbrev form_state : Form → Bool → ManagerSharedState
form_state idle commit = state Status.stopped sleep commit (sleeping false)
form_state (up frozen on_sleep) commit =
    state (up_status frozen) (up_on_stop on_sleep) commit (in_main false)

-- A thread that waits undisturbed has left the status at stopped. A call that waited for Docker
-- meanwhile may have set another one since.
abbrev pub has_said_so : Status → Thread → Bool
has_said_so status (sleeping false) = is_stopped status
has_said_so status thread = true

settle-form :
    (status : Status) (on_stop : OnStop) (commit : Bool) (thread : Thread)
    → orderly status on_stop thread ≡ true
    → is_exit on_stop ≡ false
    → has_said_so status thread ≡ true
    → (form : Form) × (c : Bool) × (settle (state status on_stop commit thread) ≡ form_state form c)
unfolding settle react decide enter_main fetch_starting_to_running orderly
settle-form status exit commit thread h e q = absurd (ground arith)
settle-form status sleep commit deciding h e q = (idle, commit, refl)
settle-form status sleep commit (sleeping true) h e q = (idle, commit, refl)
settle-form Status.stopped sleep commit (sleeping false) h e q = (idle, commit, refl)
settle-form status sleep commit (in_main true) h e q = (idle, commit, refl)
settle-form status restart commit deciding h e q = (up false false, true, refl)
settle-form status restart commit (sleeping true) h e q = (up false false, true, refl)
settle-form status restart commit (in_main true) h e q = (up false false, true, refl)
settle-form running sleep commit entering h e q = (up false true, true, refl)
settle-form paused sleep commit entering h e q = (up true true, true, refl)
settle-form running restart commit entering h e q = (up false false, true, refl)
settle-form paused restart commit entering h e q = (up true false, true, refl)
settle-form running sleep commit (in_main false) h e q = (up false true, commit, refl)
settle-form paused sleep commit (in_main false) h e q = (up true true, commit, refl)
settle-form running restart commit (in_main false) h e q = (up false false, commit, refl)
settle-form paused restart commit (in_main false) h e q = (up true false, commit, refl)
settle-form _ _ _ _ h e q = absurd (ground arith)

-- A test that holds of each Boolean.
abbrev every : (Bool → Bool) → Bool
every p = p true && p false

every_lem : (p : Bool → Bool) → every p ≡ true → (b : Bool) → p b ≡ true
every_lem p h true = and_left (p true) (p false) h
every_lem p h false = and_right (p true) (p false) h

four_times :
    (p : Bool → Bool → Bool → Bool → Bool)
    → every (λ a. every (λ b. every (λ c. every (λ d. p a b c d)))) ≡ true
    → (a b c d : Bool) → p a b c d ≡ true
four_times p h a b c d =
    every_lem (p a b c)
      (every_lem (λ c. every (p a b c))
        (every_lem (λ b. every (λ c. every (p a b c)))
          (every_lem (λ a. every (λ b. every (λ c. every (p a b c)))) h a) b)
        c)
      d

-- four rounds from a form
abbrev is_done_from : DateTime → MainStatus → Form → Bool → (pauses ends : Bool) → Bool
is_done_from now main form commit pauses ends =
    is_done main
      (rounds (obeying pauses ends) now 4 (record { main = main; shared = form_state form commit }))

is_done-up :
    (now : DateTime) (main : MainStatus) (commit pauses ends frozen on_sleep : Bool)
    → is_done_from now main (up frozen on_sleep) commit pauses ends ≡ true
unfolding rounds round synchronize_once when_stopped when_starting when_running when_paused stop
    start pause resume terminate send_signal settle react decide enter_main
    fetch_starting_to_running agrees leads_to
is_done-up now MainStatus.stopped commit =
    four_times (λ p e f s. is_done_from now MainStatus.stopped (up f s) commit p e) refl
is_done-up now stopping commit =
    four_times (λ p e f s. is_done_from now stopping (up f s) commit p e) refl
is_done-up now restarting commit =
    four_times (λ p e f s. is_done_from now restarting (up f s) commit p e) refl
is_done-up now (starting_up r) commit =
    four_times (λ p e f s. is_done_from now (starting_up r) (up f s) commit p e) refl
is_done-up now (running_since t health) commit =
    four_times (λ p e f s. is_done_from now (running_since t health) (up f s) commit p e) refl
is_done-up now (backing_up t health) commit =
    four_times (λ p e f s. is_done_from now (backing_up t health) (up f s) commit p e) refl

is_done-form :
    (now : DateTime) (main : MainStatus) (form : Form) (commit pauses ends : Bool)
    → is_done_from now main form commit pauses ends ≡ true
unfolding rounds round synchronize_once when_stopped when_running start settle react decide
    enter_main fetch_starting_to_running agrees leads_to
is_done-form now main (up frozen on_sleep) commit pauses ends =
    is_done-up now main commit pauses ends frozen on_sleep
is_done-form now MainStatus.stopped idle commit pauses ends = refl
is_done-form now stopping idle commit pauses ends = refl
is_done-form now restarting idle commit pauses ends = refl
is_done-form now (starting_up r) idle commit pauses ends = refl
is_done-form now (running_since t health) idle commit pauses ends = refl
is_done-form now (backing_up t health) idle commit pauses ends = refl

agrees-round :
    (docker : Docker) (now : DateTime) (main : MainStatus) (status : Status) (on_stop : OnStop)
    (commit : Bool) (thread : Thread)
    → agrees main status thread ≡ true
    → round docker now (record { main = main; shared = state status on_stop commit thread })
      ≡ record { main = main; shared = state status on_stop commit thread }
unfolding agrees round synchronize_once when_stopped when_running when_paused settle react
agrees-round docker now MainStatus.stopped Status.stopped on_stop commit (sleeping false) h = refl
agrees-round docker now (running_since t health) running on_stop commit (in_main false) h = refl
agrees-round docker now (backing_up t health) Status.stopped on_stop commit (sleeping false) h =
    refl
agrees-round docker now (backing_up t health) paused on_stop commit (in_main false) h = refl
agrees-round docker now _ _ _ _ _ h = absurd (ground arith)

rounds-same :
    (docker : Docker) (now : DateTime) (n : ℕ) (s : Synced)
    → round docker now s ≡ s
    → rounds docker now n s ≡ s
unfolding rounds
rounds-same docker now zero s same = refl
rounds-same docker now (suc n) s same =
    ap (rounds docker now n) same ∙ rounds-same docker now n s same

is_done-rounds :
    (docker : Docker) (now : DateTime) (main : MainStatus) (n : ℕ) (s : Synced)
    → is_done main s ≡ true
    → is_done main (rounds docker now n s) ≡ true
is_done-rounds docker now main n s h =
    ap (is_done main) (
      rounds-same docker now n s (
        agrees-round docker now s.main s.shared.status s.shared.on_stop
          s.shared.commit_health_check_results s.shared.thread
          (and_right (leads_to main s.main) _ h)))
    ∙ h

rounds-4 :
    (docker : Docker) (now : DateTime) (n : ℕ) (s : Synced)
    → rounds docker now (suc (suc (suc (suc n)))) s ≡ rounds docker now n (rounds docker now 4 s)
unfolding rounds
rounds-4 docker now n s = refl

four_rounds :
    (pauses ends : Bool) (now : DateTime) (s : Synced)
    → orderly s.shared.status s.shared.on_stop s.shared.thread ≡ true
    → is_exit s.shared.on_stop ≡ false
    → has_said_so s.shared.status s.shared.thread ≡ true
    → is_done s.main (rounds (obeying pauses ends) now 4 (record s { shared = settle (s.shared) }))
      ≡ true
four_rounds pauses ends now s orderly live said =
    let shared = s.shared in
    let (form, commit, e) =
      settle-form shared.status shared.on_stop shared.commit_health_check_results shared.thread
        orderly live said in
    rw e (is_done-form now s.main form commit pauses ends)

-- From any state that a service reaches and in which it has not been told to exit, and a thread that
-- waits undisturbed has left the status at stopped: if from there on nothing but the synchronizer and
-- the thread acts, the main procedure starts whenever it is to and goes on until it is signalled or
-- killed, and Docker resumes and signals, then the service is within four rounds where its status in
-- the database asks it to be, and stays there. A stopped or stopping service is stopped, a starting,
-- restarting or running one runs, and one that is backed up is paused or stopped. A container may
-- refuse to be paused, and may let the time run out when it is told to end.
pub rounds-converges :
    (pauses ends : Bool) (now : DateTime) (n : ℕ) (s : Synced)
    → 4 ≤ n
    → IsReachable s
    → is_exit s.shared.on_stop ≡ false
    → has_said_so s.shared.status s.shared.thread ≡ true
    → is_done s.main (rounds (obeying pauses ends) now n (record s { shared = settle (s.shared) }))
      ≡ true
rounds-converges pauses ends now (suc (suc (suc (suc n)))) s long reached live said =
    let docker = obeying pauses ends in
    let start = record s { shared = settle (s.shared) } in
    rw (rounds-4 docker now n start) (
      is_done-rounds docker now s.main n (rounds docker now 4 start)
        (four_rounds pauses ends now s (reachable-IsOrderly s reached) live said))
rounds-converges pauses ends now _ s long reached live said = absurd (omega arith)
