-- ===== src/Ota/Task/Release.antt =====
-- What the task does before its first check, and what the watch shows while it waits.
use mathlib.Core.Path.{subst}
use project_emerge_dropbot_f.Prelude.{
  ◌≡◌, refl, sym, Bool, true, false, ◌⊎◌, inl, inr, ◌∙◌, Option, none, some, List, [], ◌∷◌, Result,
  ok, err,
}
use project_emerge_dropbot_f.Prelude.Text.{Text}
use project_emerge_dropbot_f.Sync.{Watch}
use project_emerge_dropbot_f.Network.Heapless.{Heapless}
use project_emerge_dropbot_f.Ota.Status.{OtaStatus, idle, applying}
use project_emerge_dropbot_f.Ota.Manager.{
  Call, reset, OtaError, World, Session, check_and_apply_update, conclude,
}
use project_emerge_dropbot_f.Ota.Manager.Round.{publish_status-shows}
use project_emerge_dropbot_f.Ota.Task.{
  Phase, waiting_network, waiting_configuration, waiting_check, restarted, Wake, network_ready,
  check, configured, OtaTask, restarts, phase_after, after_network, check_now, wake, run, start,
  OtaImageState, new_image, pending_verify, another, BootCall, open_table, read_state, set_valid,
  confirm,
}

-- The confirmation of the slot at boot, by its outcomes: the partition table is not opened; the state is
-- not read or is neither new nor pending; or it is one of these, and the slot is marked as valid.
abbrev pub IsConfirmation :
    {T : Type 0} → Result T (Unit {0}) → Result T OtaImageState → List BootCall → Type 0
IsConfirmation {T} opened state cs =
    ((e : T) × (opened ≡ err e) × (cs ≡ open_table ∷ []))
    ⊎ ((opened ≡ ok tt)
        × ((state ≡ ok another) ⊎ ((e : T) × (state ≡ err e)))
        × (cs ≡ open_table ∷ read_state ∷ []))
    ⊎ ((opened ≡ ok tt)
        × ((state ≡ ok new_image) ⊎ (state ≡ ok pending_verify))
        × (cs ≡ open_table ∷ read_state ∷ set_valid ∷ []))

confirm-IsConfirmation :
    {T : Type 0} (opened : Result T (Unit {0})) (state : Result T OtaImageState)
    → IsConfirmation opened state (confirm opened state)
unfolding confirm
confirm-IsConfirmation (err e) state = inl (e, refl, refl)
confirm-IsConfirmation (ok tt) (ok new_image) = inr (inr (refl, inl refl, refl))
confirm-IsConfirmation (ok tt) (ok pending_verify) = inr (inr (refl, inr refl, refl))
confirm-IsConfirmation (ok tt) (ok another) = inr (inl (refl, inl refl, refl))
confirm-IsConfirmation (ok tt) (err e) = inr (inl (refl, inr (e, refl), refl))

module _ {H J T W : Type 0} (h : Heapless) (watch : Watch W OtaStatus) (world : World H J T)
    (firmware_version : Text) where
  -- What a phase promises of the session that began as `first`.
  abbrev pub Promises : Session W → Phase → Session W → Type 0
  Promises first waiting_network s = s ≡ first
  Promises first waiting_configuration s = s ≡ first
  Promises first waiting_check s =
      (watch.try_get s.watch ≡ none) ⊎ (watch.try_get s.watch ≡ some idle)
  Promises first restarted s =
      ((cs : List Call) × (s.calls ≡ reset ∷ cs)) × (watch.try_get s.watch ≡ some applying)

  conclude-Promises :
      (first : Session W) (r : Session W × Result (OtaError H J T) Bool)
      → Promises first (phase_after (restarts r.1)) (conclude h watch world r)
  unfolding restarts conclude
  conclude-Promises first (s, ok true) = ((_, refl), publish_status-shows h watch world applying s)
  conclude-Promises first (s, ok false) = inr (publish_status-shows h watch world idle s)
  conclude-Promises first (s, err e) = inr (publish_status-shows h watch world idle s)

  abbrev pub IsQuiet : Session W → Type 0
  IsQuiet s = (watch.try_get s.watch ≡ none) ⊎ (watch.try_get s.watch ≡ some idle)

  keep :
      (first : Session W) (phase : Phase) (t : OtaTask W)
      → t.phase ≡ phase
      → Promises first phase t.session
      → Promises first t.phase t.session
  keep first phase t e p = subst (λ phase. Promises first phase t.session) (sym e) p

  unchanged :
      (first : Session W) (t : OtaTask W) → IsQuiet first → t.session ≡ first → IsQuiet t.session
  unchanged first t quiet e = subst IsQuiet (sym e) quiet

  ready :
      (first : Session W) (t : OtaTask W)
      → IsQuiet first
      → t.session ≡ first
      → (known : Option Text) → Promises first (after_network known) t.session
  unfolding after_network
  ready first t quiet e none = e
  ready first t quiet e (some server) = unchanged first t quiet e

  checks :
      (first : Session W) (t : OtaTask W)
      → t.phase ≡ waiting_check
      → IsQuiet t.session
      → (known : Option Text)
      → let now = check_now h watch world firmware_version known t in
        Promises first now.phase now.session
  unfolding check_now
  checks first t e quiet none = keep first waiting_check t e quiet
  checks first t e quiet (some server) =
      conclude-Promises first
        (check_and_apply_update h watch world firmware_version server t.session)

  wake-Promises :
      (first : Session W) (phase : Phase) (w : Wake) (t : OtaTask W)
      → IsQuiet first
      → t.phase ≡ phase
      → Promises first phase t.session
      → let now = wake h watch world firmware_version phase w t in
        Promises first now.phase now.session
  unfolding wake
  wake-Promises first waiting_network network_ready t quiet e p =
      ready first t quiet p t.ota_configuration
  wake-Promises first waiting_network check t quiet e p = keep first waiting_network t e p
  wake-Promises first waiting_network (configured server) t quiet e p =
      keep first waiting_network t e p
  wake-Promises first waiting_configuration network_ready t quiet e p =
      keep first waiting_configuration t e p
  wake-Promises first waiting_configuration check t quiet e p =
      keep first waiting_configuration t e p
  wake-Promises first waiting_configuration (configured server) t quiet e p =
      unchanged first t quiet p
  wake-Promises first waiting_check network_ready t quiet e p = keep first waiting_check t e p
  wake-Promises first waiting_check check t quiet e p = checks first t e p t.ota_configuration
  wake-Promises first waiting_check (configured server) t quiet e p = keep first waiting_check t e p
  wake-Promises first restarted w t quiet e p = keep first restarted t e p

  run-Promises :
      (first : Session W) (ws : List Wake) (t : OtaTask W)
      → IsQuiet first
      → Promises first t.phase t.session
      → let end = run h watch world firmware_version ws t in Promises first end.phase end.session
  unfolding run
  run-Promises first [] t quiet p = p
  run-Promises first (w ∷ ws) t quiet p =
      run-Promises first ws (wake h watch world firmware_version t.phase w t) quiet
        (wake-Promises first t.phase w t quiet refl p)

  check_now-boot_calls :
      (known : Option Text) (t : OtaTask W)
      → (check_now h watch world firmware_version known t).boot_calls ≡ t.boot_calls
  unfolding check_now
  check_now-boot_calls none t = refl
  check_now-boot_calls (some server) t = refl

  wake-boot_calls :
      (phase : Phase) (w : Wake) (t : OtaTask W)
      → (wake h watch world firmware_version phase w t).boot_calls ≡ t.boot_calls
  unfolding wake
  wake-boot_calls waiting_network network_ready t = refl
  wake-boot_calls waiting_network check t = refl
  wake-boot_calls waiting_network (configured server) t = refl
  wake-boot_calls waiting_configuration network_ready t = refl
  wake-boot_calls waiting_configuration check t = refl
  wake-boot_calls waiting_configuration (configured server) t = refl
  wake-boot_calls waiting_check network_ready t = refl
  wake-boot_calls waiting_check check t = check_now-boot_calls t.ota_configuration t
  wake-boot_calls waiting_check (configured server) t = refl
  wake-boot_calls restarted w t = refl

  run-boot_calls :
      (ws : List Wake) (t : OtaTask W)
      → (run h watch world firmware_version ws t).boot_calls ≡ t.boot_calls
  unfolding run
  run-boot_calls [] t = refl
  run-boot_calls (w ∷ ws) t =
      run-boot_calls ws (wake h watch world firmware_version t.phase w t)
      ∙ wake-boot_calls t.phase w t

  -- Over any wake-ups from the start of the task, on a watch that shows no update: at boot the task opens
  -- the partition table, reads the state of the slot if the table was opened, marks the slot as valid
  -- exactly if the state that it read is new or pending, and never does so again; until the network is up
  -- and a configuration has come, it has called nothing else and shown nothing; whenever it waits for its
  -- next check, however the ones before ended, the watch shows no update, so that no other task stays
  -- paused; and it ends only by a restart of the board, its last call, with the watch at "applying".
  pub run-start-Promises :
      (opened : Result T (Unit {0})) (state : Result T OtaImageState) (first : Session W)
      (ws : List Wake)
      → IsQuiet first
      → let end = run h watch world firmware_version ws (start opened state first) in
        IsConfirmation opened state end.boot_calls × Promises first end.phase end.session
  unfolding start
  run-start-Promises opened state first ws quiet = (
    subst (IsConfirmation opened state) (sym (run-boot_calls ws (start opened state first)))
        (confirm-IsConfirmation opened state),
    run-Promises first ws (start opened state first) quiet refl,
  )
